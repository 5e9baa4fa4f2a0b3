-- ===== src/SocketHandlers/Joins/Authority.antt =====
-- Who may act, and until when, in socketHandlers.ts.
use dance_sync_back_end.Base.{
  ◌≡◌, refl, true, false, Option, some, inl, inr, ◌⊎◌, Text, ◌==◌, eq→path, eq_refl, All, All-imp,
  arith,
}
use dance_sync_back_end.Errors.{Result, ok, throw, player_not_in_room, Result-cases}
use dance_sync_back_end.Model.{Room, Wire, string}
use dance_sync_back_end.Identity.{Unicode}
use dance_sync_back_end.UseCases.{Departure, leave_room}
use dance_sync_back_end.UseCases.Commands
use dance_sync_back_end.SocketHandlers.Sockets.{Socket, truthy, is_bound_to, require_own_seat}
use dance_sync_back_end.SocketHandlers.Sockets.Bindings.{
  ActsAs, SeatOutcome, require_own_seat-cases, truthy-some, NoneBound, unbind_player-NoneBound,
}
use dance_sync_back_end.SocketHandlers.ClientEvents
use dance_sync_back_end.SocketHandlers.ClientEvents.{ClientEvent, Reply, room_reply}
use dance_sync_back_end.SocketHandlers.Hub.{Hub, Moment, leave_seat, publish_room}
use dance_sync_back_end.SocketHandlers.Leaving.{announce_leave-Spares}
use dance_sync_back_end.SocketHandlers.Events.{Handled, act}
use dance_sync_back_end.SocketHandlers.Joins.{seat_of, act_as, dispatch, handle}

module _ (u : Unicode) (m : Moment) where
  -- What a handler refuses.
  abbrev pub refused : Hub → Handled
  refused hub = (throw player_not_in_room, hub)

  dispatch-cases :
      (socket : Socket) (event : ClientEvent) (hub : Hub) (code id : Wire)
      (r : Result (Text × Text))
      → SeatOutcome u socket code id r
      → ((act_as u m socket event hub r ≡ refused hub) × ¬ ActsAs u socket code id)
        ⊎ (ActsAs u socket code id
            × ((room : Text) × (player : Text) × (act_as u m socket event hub r
                  ≡ act u m socket room player event hub)
                × (truthy socket.room_code ≡ some room)
                × (id ≡ string player)))
  dispatch-cases socket event hub code id r (inl (e, not_seated)) = inl (rw e refl, not_seated)
  dispatch-cases socket event hub code id r (inr (acts, (room, player, e, f, g))) =
      inr (acts, (room, player, rw e refl, f, g))

  handle-dispatch :
      (socket : Socket) (event : ClientEvent) (hub : Hub) (seat : Wire × Wire)
      → seat_of event ≡ some seat
      → handle u m socket event hub ≡ dispatch u m socket event hub (seat_of event)
  unfolding handle
  handle-dispatch socket (ClientEvents.room_join a b c) hub seat e = absurd (ground arith)
  handle-dispatch socket _ hub seat e = refl

  -- An event other than room:join is handled, as a player in a room, exactly when the socket has
  -- joined the room that the event names, in any case of letters, as the player that it names:
  -- either it has not, and the event is refused with nothing changed, or it has, and the event is
  -- handled as that player in the room that the socket joined.
  pub handle-ActsAs :
      (socket : Socket) (event : ClientEvent) (hub : Hub) (code id : Wire)
      → seat_of event ≡ some (code, id)
      → ((handle u m socket event hub ≡ refused hub) × ¬ ActsAs u socket code id)
        ⊎ (ActsAs u socket code id
            × ((room : Text) × (player : Text) × (handle u m socket event hub
                  ≡ act u m socket room player event hub)
                × (truthy socket.room_code ≡ some room)
                × (id ≡ string player)))
  handle-ActsAs socket event hub code id e =
      rw (handle-dispatch socket event hub (code, id) e, e)
        (dispatch-cases socket event hub code id (require_own_seat u socket code id)
          (require_own_seat-cases u socket code id))

  -- A socket that is not bound to a seat cannot act in it.
  refused_unbound :
      (socket : Socket) (event : ClientEvent) (hub : Hub) (code c player : Text)
      → is_bound_to u code player socket ≡ false
      → (u.to_upper_case c == u.to_upper_case code) ≡ true
      → seat_of event ≡ some (string c, string player)
      → handle u m socket event hub ≡ refused hub
  refused_unbound socket event hub code c player free same e =
      go (handle-ActsAs socket event hub (string c) (string player) e)
    where
      go :
          ((handle u m socket event hub ≡ refused hub)
              × ¬ ActsAs u socket (string c) (string player))
            ⊎ (ActsAs u socket (string c) (string player)
                × ((r : Text) × (p : Text) × (handle u m socket event hub
                      ≡ act u m socket r p event hub)
                    × (truthy socket.room_code ≡ some r)
                    × (string player ≡ string p)))
          → handle u m socket event hub ≡ refused hub
      go (inl (refusal, _)) = refusal
      go (inr (acts, _)) = absurd (
          ground (
            arith,
            free,
            acts.joined_room,
            acts.joined_player,
            truthy-some u socket.player_id acts.player acts.joined_player,
            acts.named_room,
            acts.named_player,
            acts.same,
            same,
            eq→path (u.to_upper_case c) (u.to_upper_case code) same,
            eq→path (u.to_upper_case acts.code) (u.to_upper_case acts.room) acts.same,
            eq_refl player,
            eq_refl (u.to_upper_case code),
          ))

  -- No event of any socket of the list is handled that names the room and the player.
  abbrev pub IsCutOff : Text → Text → Hub → Type 0
  IsCutOff code player hub =
      All
        (λ (s : Socket).
          (event : ClientEvent) (c : Text)
          → (u.to_upper_case c == u.to_upper_case code) ≡ true
          → seat_of event ≡ some (string c, string player)
          → handle u m s event hub ≡ refused hub)
        hub.sockets

  NoneBound-IsCutOff :
      (code player : Text) (hub : Hub)
      → NoneBound u code player hub.sockets
      → IsCutOff code player hub
  NoneBound-IsCutOff code player hub h =
      All-imp (λ (s : Socket). is_bound_to u code player s ≡ false) _
        (λ s free event c same e. refused_unbound s event hub code c player free same e) hub.sockets
        h

  -- After a player left a room, by room:leave, over HTTP, because their seat was released or to
  -- take another, no event of any socket that names them in this room is handled, but room:join.
  pub leave_seat-IsCutOff :
      (code player : Text) (hub : Hub) (left : Option Room × Departure)
      → (leave_seat u m code player hub).0 ≡ ok left
      → IsCutOff code player (leave_seat u m code player hub).1
  unfolding leave_seat
  leave_seat-IsCutOff code player hub left =
      elim (Result-cases (leave_room u code player m.now m.random hub.rooms).0) [
        | inl (f, e) ↦ rw (e, leave_seat) λ h. absurd (ground arith)
        | inr ((room, departure), e) ↦
            rw (e, leave_seat)
              λ h. NoneBound-IsCutOff code player _ (
                rw (announce_leave-Spares u m code room departure _).0
                  (unbind_player-NoneBound u code player hub.sockets))
      ]

  -- After a kick that was acknowledged, no event of any socket that names the kicked player in this
  -- room is handled, but room:join.
  pub kick-IsCutOff :
      (socket : Socket) (room_code host id : Text) (code requester : Wire) (hub : Hub) (room : Room)
      → (Commands.kick_player u room_code host (string id) m.now m.random hub.rooms).0 ≡ ok room
      → IsCutOff room.code id
          (act u m socket room_code host
            (ClientEvents.player_kick code requester (string id))
            hub).1
  unfolding act publish_room
  kick-IsCutOff socket room_code host id code requester hub room e =
      rw (e, act) (NoneBound-IsCutOff room.code id _ (unbind_player-NoneBound u room.code id _))
