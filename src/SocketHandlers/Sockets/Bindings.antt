-- ===== src/SocketHandlers/Sockets/Bindings.antt =====
-- Who a socket may act as, in socketHandlers.ts.
use dance_sync_back_end.Base.{
  ◌≡◌, refl, true, false, not, ◌||◌, Option, none, some, inl, inr, Bool-cases, ◌⊎◌, List, [], ◌∷◌,
  if◌then◌else◌, Text, ◌==◌, eq→path, All, arith, eq_refl,
}
use dance_sync_back_end.Errors.{Result, ok, throw, player_not_in_room}
use dance_sync_back_end.Model.{Wire, string, boolean, null, missing, other, array}
use dance_sync_back_end.Identity.{Unicode}
use dance_sync_back_end.SocketHandlers.Sockets.{
  Socket, truthy, is_bound_to, unbind_socket, unbind_player, joined_seat, check_seat,
  require_own_seat,
}

-- The socket joined the room that the event names, in any case of letters, as the player it names.
pub record ActsAs (u : Unicode) (socket : Socket) (room_code player_id : Wire) : Type 0 where
  pub room : Text
  pub player : Text
  pub code : Text
  pub joined_room : truthy socket.room_code ≡ some room
  pub joined_player : truthy socket.player_id ≡ some player
  pub named_room : room_code ≡ string code
  pub named_player : player_id ≡ string player
  pub same : (u.to_upper_case code == u.to_upper_case room) ≡ true

module _ (u : Unicode) where
  pub truthy-some : (o : Option Text) (t : Text) → truthy o ≡ some t → o ≡ some t
  truthy-some none t e = absurd (ground arith)
  truthy-some (some []) t e = absurd (ground arith)
  truthy-some (some (c ∷ s)) t e = e

  -- The seat is refused, since the socket does not act as its player, or it acts as the player that it
  -- joined as.
  abbrev pub SeatOutcome : Socket → Wire → Wire → Result (Text × Text) → Type 0
  SeatOutcome socket room_code player_id r =
      ((r ≡ throw player_not_in_room) × ¬ ActsAs u socket room_code player_id)
      ⊎ (ActsAs u socket room_code player_id
          × ((room : Text) × (player : Text) × (r ≡ ok (room, player))
              × (truthy socket.room_code ≡ some room)
              × (player_id ≡ string player)))

  not_seated :
      (socket : Socket) (room player code id : Text)
      → truthy socket.room_code ≡ some room
      → truthy socket.player_id ≡ some player
      → ActsAs u socket (string code) (string id)
      → (not (u.to_upper_case code == u.to_upper_case room) || not (id == player)) ≡ true
      → ⊥
  not_seated socket room player code id f g acts wrong = ground (
    arith,
    acts.joined_room,
    acts.joined_player,
    acts.named_room,
    acts.named_player,
    acts.same,
    eq_refl player,
  )

  check_seat-cases :
      (socket : Socket) (room player : Text) (room_code player_id : Wire)
      → truthy socket.room_code ≡ some room
      → truthy socket.player_id ≡ some player
      → SeatOutcome socket room_code player_id (check_seat u room player room_code player_id)
  unfolding check_seat
  check_seat-cases socket room player (string code) (string id) f g =
      elim (Bool-cases (not (u.to_upper_case code == u.to_upper_case room) || not (id == player))) [
        | inl wrong ↦
            rw wrong (inl (refl, λ acts. not_seated socket room player code id f g acts wrong))
        | inr right ↦
            let named : string id ≡ string player = ground (arith, right, eq→path id player) in
            rw right (
              inr (
                record {
                  room = room;
                  player = player;
                  code = code;
                  joined_room = f;
                  joined_player = g;
                  named_room = refl;
                  named_player = named;
                  same = ground (arith, right);
                },
                (room, player, refl, f, named),
              ))
      ]
  check_seat-cases socket room player (string code) (boolean b) f g =
      inl (refl, λ acts. ground (arith, acts.named_player))
  check_seat-cases socket room player (string code) null f g =
      inl (refl, λ acts. ground (arith, acts.named_player))
  check_seat-cases socket room player (string code) missing f g =
      inl (refl, λ acts. ground (arith, acts.named_player))
  check_seat-cases socket room player (string code) other f g =
      inl (refl, λ acts. ground (arith, acts.named_player))
  check_seat-cases socket room player (string code) (array items) f g =
      inl (refl, λ acts. ground (arith, acts.named_player))
  check_seat-cases socket room player (boolean b) id f g =
      inl (refl, λ acts. ground (arith, acts.named_room))
  check_seat-cases socket room player null id f g =
      inl (refl, λ acts. ground (arith, acts.named_room))
  check_seat-cases socket room player missing id f g =
      inl (refl, λ acts. ground (arith, acts.named_room))
  check_seat-cases socket room player other id f g =
      inl (refl, λ acts. ground (arith, acts.named_room))
  check_seat-cases socket room player (array items) id f g =
      inl (refl, λ acts. ground (arith, acts.named_room))

  joined_seat-cases :
      (socket : Socket) (joined_room joined_player : Option Text) (room_code player_id : Wire)
      → truthy socket.room_code ≡ joined_room
      → truthy socket.player_id ≡ joined_player
      → SeatOutcome socket room_code player_id
          (joined_seat u joined_room joined_player room_code player_id)
  unfolding joined_seat
  joined_seat-cases socket (some room) (some player) room_code player_id e d =
      check_seat-cases socket room player room_code player_id e d
  joined_seat-cases socket none _ room_code player_id e d =
      inl (refl, λ acts. ground (arith, acts.joined_room))
  joined_seat-cases socket (some room) none room_code player_id e d =
      inl (refl, λ acts. ground (arith, acts.joined_player))

  pub require_own_seat-cases :
      (socket : Socket) (room_code player_id : Wire)
      → SeatOutcome socket room_code player_id (require_own_seat u socket room_code player_id)
  unfolding require_own_seat
  require_own_seat-cases socket room_code player_id =
      joined_seat-cases socket (truthy socket.room_code) (truthy socket.player_id) room_code
        player_id refl refl

  -- No socket of the list is bound to the seat.
  abbrev pub NoneBound : Text → Text → List Socket → Type 0
  NoneBound room_code player_id = All (λ s. is_bound_to u room_code player_id s ≡ false)

  unbind-NoneBound :
      (room_code player_id : Text) (s : Socket)
      → is_bound_to u room_code player_id
          (if is_bound_to u room_code player_id s then unbind_socket s else s)
        ≡ false
  unfolding unbind_socket
  unbind-NoneBound room_code player_id s = elim (Bool-cases (is_bound_to u room_code player_id s)) [
    | inl bound ↦ rw bound refl
    | inr free ↦ rw free free
  ]

  -- After a player was unbound from a room, no socket is bound to this seat.
  pub unbind_player-NoneBound :
      (room_code player_id : Text) (sockets : List Socket)
      → NoneBound room_code player_id (unbind_player u room_code player_id sockets)
  unfolding unbind_player
  unbind_player-NoneBound room_code player_id [] = tt
  unbind_player-NoneBound room_code player_id (s ∷ sockets) =
      (unbind-NoneBound room_code player_id s, unbind_player-NoneBound room_code player_id sockets)
