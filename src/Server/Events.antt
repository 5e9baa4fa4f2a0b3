-- ===== src/Server/Events.antt =====
-- The handlers of socket events in socketHandlers.ts, as operations of the components.
use dance_sync_back_end.Base.{
  List, [], ◌∷◌, Option, none, some, inl, inr, Bool, Bool-cases, true, false, if◌then◌else◌, Text,
  any,
}
use dance_sync_back_end.Errors.{Result, ok, err, Result-cases}
use dance_sync_back_end.Model.{Room}
use dance_sync_back_end.Identity.{Unicode}
use dance_sync_back_end.RoomRepository.{Rooms}
use dance_sync_back_end.UseCases
use dance_sync_back_end.UseCases.Commands
use dance_sync_back_end.UseCases.WordRaces.{SubmitWordOutput, submit_word}
use dance_sync_back_end.UseCases.Chat.{ChatMessage, send_chat_message}
use dance_sync_back_end.UseCases.Requests
use dance_sync_back_end.UseCases.Requests.{serve}
use dance_sync_back_end.SocketHandlers.Sockets.{Socket, is_bound_to, is_same, in_channel}
use dance_sync_back_end.SocketHandlers.ClientEvents
use dance_sync_back_end.SocketHandlers.ClientEvents.{ClientEvent, WebRtcSignal}
use dance_sync_back_end.SocketHandlers.Signals.{require_valid_signal}
use dance_sync_back_end.SocketHandlers.Hub.{
  Hub, Moment, leave_seat, publish_room, announce_battle_started,
}
use dance_sync_back_end.SocketHandlers.Events.{
  Handled, after_rooms, kept_rooms, act, tell_kicked, kicked, left, won_word, submitted_word,
  is_won, cast, back_to_lobby, relayed, chatted, named,
}
use dance_sync_back_end.Server.Kept.{IsKept}
use dance_sync_back_end.Server.Releases.{
  leave_seat_kept, publish_room_kept, battle_started_kept, vacate_kept, tell_voters_kept,
  stop_race_kept,
}

-- What follows a command.
pub after_rooms_kept {ℓ κ} :
    {B : Type ℓ} (P : Hub → Type κ) (r : Result B) (rooms : Rooms) (hub : Hub)
    (f : B → Hub → Handled)
    → P (record hub { rooms = rooms })
    → ((b : B) (h : Hub) → P h → P (f b h).1)
    → P (after_rooms (r, rooms) hub f).1
after_rooms_kept P (err e) rooms hub f p h = p
after_rooms_kept P (ok b) rooms hub f p h = h b (record hub { rooms = rooms }) p

module _ {ℓ} (u : Unicode) (m : Moment) (P : Hub → Type ℓ) (k : IsKept u m P) where
  left_kept :
      (r : Result (Option Room × UseCases.Departure)) (hub : Hub) → P hub → P (left u m (r, hub)).1
  unfolding left
  left_kept (err e) hub p = p
  left_kept (ok (none, d)) hub p = p
  left_kept (ok (some room, d)) hub p = p

  tell_kicked_kept :
      (code id : Text) (sockets : List Socket) (hub : Hub)
      → P hub
      → P (tell_kicked u m code id sockets hub)
  unfolding tell_kicked
  tell_kicked_kept code id [] hub p = p
  tell_kicked_kept code id (s ∷ sockets) hub p = elim (Bool-cases (is_bound_to u code id s)) [
    | inl told ↦ rw (told, tell_kicked) (tell_kicked_kept code id sockets _ (k.effects _ hub p))
    | inr other ↦ rw (other, tell_kicked) (tell_kicked_kept code id sockets hub p)
  ]

  started_kept :
      (room : Room) (started : Bool) (hub : Hub)
      → P hub
      → P (if started then announce_battle_started u m room hub else publish_room u m room hub)
  started_kept room true hub p = battle_started_kept u m P k room hub p
  started_kept room false hub p = publish_room_kept u m P k room hub p

  kicked_kept : (id : Text) (room : Room) (hub : Hub) → P hub → P (kicked u m id room hub).1
  unfolding kicked
  kicked_kept id room hub p =
      publish_room_kept u m P k room _
        (vacate_kept u m P k room.code id _ (tell_kicked_kept room.code id hub.sockets hub p))

  won_word_kept :
      (code player : Text) (out : SubmitWordOutput) (hub : Hub)
      → P hub
      → P (won_word u m code player out hub)
  unfolding won_word serve
  won_word_kept code player out hub p =
      let paid = k.serves (Requests.wins_word code player) hub p in
      elim (Result-cases (Commands.award_word_bonus u code player hub.rooms).0) [
        | inl (f, e) ↦ rw (e, won_word) (k.effects _ _ paid)
        | inr (room, e) ↦ rw (e, won_word) (publish_room_kept u m P k room _ (k.effects _ _ paid))
      ]

  submitted_word_kept :
      (code player : Text) (r : Result SubmitWordOutput) (hub : Hub)
      → P hub
      → P (submitted_word u m code player r hub).1
  unfolding submitted_word
  submitted_word_kept code player (err e) hub p = p
  submitted_word_kept code player (ok out) hub p = elim (Bool-cases (is_won u m out.outcome)) [
    | inl won ↦ rw (won, submitted_word) (won_word_kept code player out hub p)
    | inr not_won ↦ rw (not_won, submitted_word) p
  ]

  cast_kept :
      (code id : Text) (answer : Room × (Option Text × Bool)) (hub : Hub)
      → P hub
      → P (cast u m code id answer hub).1
  unfolding cast
  cast_kept code id (room, (dancer_id, true)) hub p =
      k.effects _ _ (publish_room_kept u m P k room hub p)
  cast_kept code id (room, (dancer_id, false)) hub p = k.effects _ hub p

  back_to_lobby_kept :
      (answer : Room × List Text) (hub : Hub) → P hub → P (back_to_lobby u m answer hub).1
  unfolding back_to_lobby
  back_to_lobby_kept (room, voters) hub p =
      tell_voters_kept u m P k room.code voters _
        (publish_room_kept u m P k room _ (stop_race_kept u m P k room.code hub p))

  relayed_kept :
      (code from : Text) (signal : WebRtcSignal) (hub : Hub)
      → P hub
      → P (relayed u m code from signal hub).1
  unfolding relayed
  relayed_kept code from signal hub p = elim (Result-cases (require_valid_signal from signal)) [
    | inl (f, e) ↦ rw (e, relayed) p
    | inr (to, e) ↦
        elim (Bool-cases
          (any (λ (s : Socket). is_same s.player_id to) (in_channel code hub.sockets))) [
            | inl there ↦ rw (e, there, relayed) (k.effects _ hub p)
            | inr away ↦ rw (e, away, relayed) p
          ]
  ]

  chatted_kept : (r : Result ChatMessage) (hub : Hub) → P hub → P (chatted u m r hub).1
  unfolding chatted
  chatted_kept (err e) hub p = p
  chatted_kept (ok message) hub p = k.effects _ hub p

  pub act_kept :
      (socket : Socket) (code player : Text) (event : ClientEvent) (hub : Hub)
      → P hub
      → P (act u m socket code player event hub).1
  unfolding act serve
  act_kept socket code player (ClientEvents.role_select _ _ role) hub p =
      let (r, rooms) = Commands.select_role u code player role hub.rooms in
      after_rooms_kept P r rooms hub _ (k.serves (Requests.selects_role code player role) hub p)
        (λ room. publish_room_kept u m P k room)
  act_kept socket code player (ClientEvents.room_leave _ _) hub p =
      let (r, after) = leave_seat u m code player hub in
      left_kept r after (leave_seat_kept u m P k code player hub p)
  act_kept socket code player (ClientEvents.player_ready _ _ ready) hub p =
      let (r, rooms) = Commands.set_ready u code player ready hub.rooms in
      after_rooms_kept P r rooms hub _ (k.serves (Requests.sets_ready code player ready) hub p)
        (λ room. publish_room_kept u m P k room)
  act_kept socket code player (ClientEvents.player_kick _ _ wanted) hub p =
      let (r, rooms) = Commands.kick_player u code player wanted m.now m.random hub.rooms in
      after_rooms_kept P r rooms hub _ (k.serves (Requests.kicks code player wanted m.now) hub p)
        (kicked_kept (named u m wanted))
  act_kept socket code player (ClientEvents.battle_start _ _ ids) hub p =
      let (r, rooms) = Commands.start_battle u code player ids m.start hub.rooms in
      after_rooms_kept P r rooms hub _
        (k.serves (Requests.starts_battle code player ids m.start) hub p)
        (λ room. started_kept room true)
  act_kept socket code player (ClientEvents.word_submit _ _ round_id attempt) hub p =
      let (r, races) =
        submit_word u code player round_id attempt m.now hub.races hub.races (λ x. x) in
      submitted_word_kept code player r _ (k.races races hub.scheduler hub p)
  act_kept socket code player (ClientEvents.song_challenge_start _ _) hub p =
      let (r, rooms) = Commands.start_song_challenge u code player m.challenge hub.rooms in
      after_rooms_kept P r rooms hub _
        (k.serves (Requests.starts_challenge code player m.challenge) hub p)
        (λ room. publish_room_kept u m P k room)
  act_kept socket code player (ClientEvents.song_challenge_submit _ _ attempt) hub p =
      let (r, rooms) =
        kept_rooms (Commands.submit_song_phrase u code player attempt m.now m.random hub.rooms) in
      after_rooms_kept P r rooms hub _
        (k.serves (Requests.submits_phrase code player attempt m.now) hub p)
        (λ (room, outcome). publish_room_kept u m P k room)
  act_kept socket code player (ClientEvents.song_choose _ _ song_id) hub p =
      let (r, rooms) = kept_rooms (Commands.choose_song u code player song_id m.start hub.rooms) in
      after_rooms_kept P r rooms hub _
        (k.serves (Requests.chooses_song code player song_id m.start) hub p)
        (λ (room, started). started_kept room started)
  act_kept socket code player (ClientEvents.chat_send _ _ content) hub p =
      chatted_kept (send_chat_message u code player content m.message_id m.now hub.rooms) hub p
  act_kept socket code player (ClientEvents.vote_cast _ _ dancer_id) hub p =
      let (r, rooms) = kept_rooms (Commands.cast_vote u code player dancer_id m.now hub.rooms) in
      after_rooms_kept P r rooms hub _ (k.serves (Requests.votes code player dancer_id m.now) hub p)
        (cast_kept code player)
  act_kept socket code player (ClientEvents.room_rematch _ _) hub p =
      let (r, rooms) = kept_rooms (Commands.start_rematch u code player hub.rooms) in
      after_rooms_kept P r rooms hub _ (k.serves (Requests.rematches code player) hub p)
        back_to_lobby_kept
  act_kept socket code player (ClientEvents.webrtc_ready _ _) hub p = k.effects _ hub p
  act_kept socket code player (ClientEvents.webrtc_signal signal) hub p =
      relayed_kept code player signal hub p
  act_kept socket code player (ClientEvents.room_join _ _ _) hub p = p
