-- ===== src/UseCases/Chat.antt =====
-- domain/model/ChatMessage.ts and application/usecases/SendChatMessage.ts.
use dance_sync_back_end.Base.{
  ℕ, ◌≤◌, ◌≡◌, ◌||◌, Option, none, some, Text, ◌==◌, ltb, nat_eq, length, find, arith, inl, inr,
  Option-cases, List, [], ◌∷◌, ◌++◌, refl, text_discrete,
}
use dance_sync_back_end.Errors.{
  Result, Result-cases, ok, throw, throw_if, room_not_found, player_not_in_room, invalid_message,
  ◌>>=◌, ◌>>◌,
}
use dance_sync_back_end.Model.{Room, Player, Wire, string, boolean, null, missing, other, array}
use dance_sync_back_end.Identity.{Unicode, trim}
use dance_sync_back_end.RoomRepository.{Rooms, find_by_code}

abbrev pub max_message_length : ℕ
max_message_length = 500

pub record ChatMessage : Type 0 where
  pub id : Text
  pub room_code : Text
  pub sender_id : Text
  pub sender_name : Text
  pub content : Text
  pub sent_at : ℕ

-- Trimmed text of 1 to 500 characters.
unfoldable pub message_content : Wire → Result Text
message_content (string content) = do
  throw_if (nat_eq (length (trim content)) 0 || ltb max_message_length (length (trim content)))
      invalid_message
  ok (trim content)
message_content content = throw invalid_message

abbrev pub sender_in : Room → Text → Option Player
sender_in room sender_id = find (λ (p : Player). p.id == sender_id) room.players

-- The message of a room that was found.
unfoldable pub message_in : Room → Text → Wire → Text → ℕ → Result ChatMessage
unfolding message_content
message_in room sender_id content id now = elim (sender_in room sender_id) [
  | none ↦ throw player_not_in_room
  | some sender ↦ do
    checked ← message_content content
    ok (record {
      id = id;
      room_code = room.code;
      sender_id = sender.id;
      sender_name = sender.display_name;
      content = checked;
      sent_at = now;
    })
]

module _ (u : Unicode) where
  unfoldable pub send_chat_message : Text → Text → Wire → Text → ℕ → Rooms → Result ChatMessage
  unfolding message_in
  send_chat_message room_code sender_id content id now rooms =
      elim (find_by_code u room_code rooms) [
        | none ↦ throw room_not_found
        | some room ↦ message_in room sender_id content id now
      ]

  message_content-ok :
      (content : Wire) (checked : Text)
      → message_content content ≡ ok checked
      → (1 ≤ length checked) × (length checked ≤ max_message_length)
  unfolding message_content
  message_content-ok (string s) checked e = ground arith
  message_content-ok (boolean b) checked e = absurd (ground arith)
  message_content-ok null checked e = absurd (ground arith)
  message_content-ok missing checked e = absurd (ground arith)
  message_content-ok other checked e = absurd (ground arith)
  message_content-ok (array items) checked e = absurd (ground arith)

  message_content-trim :
      (content : Wire) (checked : Text)
      → message_content content ≡ ok checked
      → (sent : Text) × (content ≡ string sent) × (checked ≡ trim sent)
  unfolding message_content
  message_content-trim (string s) checked e = (s, refl, ground arith)
  message_content-trim (boolean b) checked e = absurd (ground arith)
  message_content-trim null checked e = absurd (ground arith)
  message_content-trim missing checked e = absurd (ground arith)
  message_content-trim other checked e = absurd (ground arith)
  message_content-trim (array items) checked e = absurd (ground arith)

  -- The player is one of the list.
  abbrev pub IsOneOf : Player → List Player → Type 0
  IsOneOf p players = (front : List Player) × (back : List Player) × (players ≡ front ++ p ∷ back)

  find-IsOneOf :
      (id : Text) (players : List Player) (p : Player)
      → find (λ (q : Player). q.id == id) players ≡ some p
      → IsOneOf p players × (p.id ≡ id)
  find-IsOneOf id [] p e = absurd (ground arith)
  find-IsOneOf id (x ∷ players) p e = elim (text_discrete x.id id) [
    | yes same ↦ (([], players, ground arith), ground arith)
    | no differs ↦
        let ((front, back, split), named) = find-IsOneOf id players p (ground arith) in
        ((x ∷ front, back, ground arith), named)
  ]

  -- What a message that is passed on is: sent to a room that exists by one of its players, under
  -- their id and name, with the text that was sent, trimmed and of 1 to 500 characters.
  pub record IsMessage (room_code sender_id : Text) (content : Wire) (id : Text) (now : ℕ)
      (rooms : Rooms) (m : ChatMessage) : Type 0 where
    pub room : Room
    pub sender : Player
    pub sent : Text
    pub found : find_by_code u room_code rooms ≡ some room
    pub member : IsOneOf sender room.players
    pub as_asked : sender.id ≡ sender_id
    pub code : m.room_code ≡ room.code
    pub author : m.sender_id ≡ sender.id
    pub name : m.sender_name ≡ sender.display_name
    pub typed : content ≡ string sent
    pub trimmed : m.content ≡ trim sent
    pub not_empty : 1 ≤ length m.content
    pub short : length m.content ≤ 500
    pub numbered : m.id ≡ id
    pub dated : m.sent_at ≡ now

  message_in-IsMessage :
      (room_code sender_id : Text) (content : Wire) (id : Text) (now : ℕ) (rooms : Rooms)
      (m : ChatMessage) (room : Room)
      → find_by_code u room_code rooms ≡ some room
      → message_in room sender_id content id now ≡ ok m
      → IsMessage room_code sender_id content id now rooms m
  unfolding message_in
  message_in-IsMessage room_code sender_id content id now rooms m room f =
      elim (Option-cases (sender_in room sender_id)) [
        | inl s ↦ rw (s, message_in) λ e. absurd (ground arith)
        | inr (sender, s) ↦ elim (Result-cases (message_content content)) [
          | inl (g, c) ↦ rw (s, c, message_in) λ e. absurd (ground arith)
          | inr (checked, c) ↦
              rw (s, c, message_in)
                λ e.
                  let (long, short) = message_content-ok content checked c in
                  let (sent, typed, trimmed) = message_content-trim content checked c in
                  let (member, named) = find-IsOneOf sender_id room.players sender s in
                  record {
                    room = room;
                    sender = sender;
                    sent = sent;
                    found = f;
                    member = member;
                    as_asked = named;
                    code = ground arith;
                    author = ground arith;
                    name = ground arith;
                    typed = typed;
                    trimmed = ground arith;
                    not_empty = ground arith;
                    short = ground arith;
                    numbered = ground arith;
                    dated = ground arith;
                  }
        ]
      ]

  -- A message that is passed on is to a room that exists and from the one of its players that it
  -- was asked for, under their id and name; its content is the text that was sent, trimmed and of 1
  -- to 500 characters, and its id and time are the ones it was given.
  pub send_chat_message-IsMessage :
      (room_code sender_id : Text) (content : Wire) (id : Text) (now : ℕ) (rooms : Rooms)
      (m : ChatMessage)
      → send_chat_message room_code sender_id content id now rooms ≡ ok m
      → IsMessage room_code sender_id content id now rooms m
  unfolding send_chat_message
  send_chat_message-IsMessage room_code sender_id content id now rooms m =
      elim (Option-cases (find_by_code u room_code rooms)) [
        | inl f ↦ rw (f, send_chat_message) λ e. absurd (ground arith)
        | inr (room, f) ↦
            rw (f, send_chat_message)
              (message_in-IsMessage room_code sender_id content id now rooms m room f)
      ]
