-- ===== src/Server/Joins.antt =====
-- room:join, guard and disconnect of socketHandlers.ts, as operations of the components.
use dance_sync_back_end.Base.{
  ℕ, Option, none, some, inl, inr, Bool, Bool-cases, Option-cases, true, false, Text,
}
use dance_sync_back_end.Errors.{Result, ok, err, Failure}
use dance_sync_back_end.Model.{Room, Wire, is_battling}
use dance_sync_back_end.Identity.{Unicode}
use dance_sync_back_end.RoomService.{has_player}
use dance_sync_back_end.UseCases.{join_room}
use dance_sync_back_end.UseCases.WordRaces.{get_active_word_round}
use dance_sync_back_end.UseCases.Requests
use dance_sync_back_end.UseCases.Requests.{serve}
use dance_sync_back_end.SocketHandlers.Sockets.{Socket, require_own_seat, truthy}
use dance_sync_back_end.SocketHandlers.ClientEvents
use dance_sync_back_end.SocketHandlers.ClientEvents.{ClientEvent}
use dance_sync_back_end.SocketHandlers.Hub.{Hub, Moment, leave_seat}
use dance_sync_back_end.SocketHandlers.Events.{Handled}
use dance_sync_back_end.SocketHandlers.Joins.{
  seat_of, unexpected, same_room_code, previous_seat, leave_previous_binding, resync_word_round,
  show_vote, seated, moved, take_seat, id_of, join, act_as, dispatch, handle, guard, disconnect,
}
use dance_sync_back_end.Server.Kept.{IsKept}
use dance_sync_back_end.Server.Releases.{publish_room_kept, leave_seat_kept}
use dance_sync_back_end.Server.Events.{after_rooms_kept, act_kept}

module _ {ℓ} (u : Unicode) (m : Moment) (P : Hub → Type ℓ) (k : IsKept u m P) where
  leave_previous_binding_kept :
      (socket : Socket) (room player : Text) (hub : Hub)
      → P hub
      → P (leave_previous_binding u m socket room player hub).1
  unfolding leave_previous_binding
  leave_previous_binding_kept socket room player hub p =
      let left = leave_seat_kept u m P k room player hub p in
      elim (Option-cases (unexpected (leave_seat u m room player hub).0)) [
        | inl e ↦ rw (e, leave_previous_binding) (k.sockets _ _ left)
        | inr (f, e) ↦ rw (e, leave_previous_binding) left
      ]

  resync_kept :
      (socket : Socket) (code : Text) (hub : Hub)
      → P hub
      → P (resync_word_round u m socket code hub)
  unfolding resync_word_round
  resync_kept socket code hub p =
      elim (Option-cases (get_active_word_round u code m.now hub.races)) [
        | inl e ↦ rw (e, resync_word_round) p
        | inr ((race, round), e) ↦ rw (e, resync_word_round) (k.effects _ hub p)
      ]

  show_vote_kept :
      (socket : Socket) (room : Room) (id : Text) (hub : Hub)
      → P hub
      → P (show_vote u m socket room id hub)
  show_vote_kept socket room id hub p = elim (Option-cases room.battle) [
    | inl e ↦ rw e p
    | inr (battle, e) ↦ elim (Bool-cases (has_player room.spectators id)) [
      | inl s ↦ rw (e, s) (k.effects _ hub p)
      | inr s ↦ rw (e, s) p
    ]
  ]

  seated_kept :
      (socket : Socket) (id : Text) (room : Room) (hub : Hub)
      → P hub
      → P (seated u m socket id room hub).1
  unfolding seated
  seated_kept socket id room hub p =
      let bound =
        publish_room_kept u m P k room _
          (k.sockets _ _ (k.notes _ _ (k.cancels room.code id hub p))) in
      elim (Bool-cases (is_battling room.status)) [
        | inl b ↦
            rw (b, seated) (show_vote_kept socket room id _ (resync_kept socket room.code _ bound))
        | inr b ↦ rw (b, seated) (show_vote_kept socket room id _ bound)
      ]

  moved_kept :
      (socket : Socket) (code id name : Wire) (player previous : Text) (room : Room)
      (e : Option Failure) (hub : Hub)
      → P hub
      → P (moved u m socket player previous (λ h. join_room u code id name h.rooms) room (e, hub)).1
  unfolding moved serve
  moved_kept socket code id name player previous room (some e) hub p = p
  moved_kept socket code id name player previous room none hub p =
      let (r, rooms) = join_room u code id name hub.rooms in
      elim (Bool-cases (same_room_code u m previous room.code)) [
        | inl same ↦
            rw (same, moved)
              (after_rooms_kept P r rooms hub _ (k.serves (Requests.joins code id name) hub p)
                (seated_kept socket player))
        | inr other ↦ rw (other, moved) (seated_kept socket player room hub p)
      ]

  take_seat_kept :
      (socket : Socket) (code id name : Wire) (player : Text) (room : Room) (hub : Hub)
      → P hub
      → P (take_seat u m socket player (λ h. join_room u code id name h.rooms) room hub).1
  unfolding take_seat
  take_seat_kept socket code id name player room hub p =
      elim (Option-cases (previous_seat u m socket room.code player)) [
        | inl e ↦ rw (e, take_seat) (seated_kept socket player room hub p)
        | inr ((old_room, old_player), e) ↦
            let (r, after) = leave_previous_binding u m socket old_room old_player hub in
            rw (e, take_seat)
              (moved_kept socket code id name player old_room room r after
                (leave_previous_binding_kept socket old_room old_player hub p))
      ]

  join_kept :
      (socket : Socket) (code id name : Wire) (hub : Hub)
      → P hub
      → P (join u m socket code id name hub).1
  unfolding join serve
  join_kept socket code id name hub p =
      let (r, rooms) = join_room u code id name hub.rooms in
      after_rooms_kept P r rooms hub _ (k.serves (Requests.joins code id name) hub p)
        (take_seat_kept socket code id name (id_of u m id))

  act_as_kept :
      (socket : Socket) (event : ClientEvent) (hub : Hub) (r : Result (Text × Text))
      → P hub
      → P (act_as u m socket event hub r).1
  act_as_kept socket event hub (err e) p = p
  act_as_kept socket event hub (ok (code, player)) p =
      act_kept u m P k socket code player event hub p

  dispatch_kept :
      (socket : Socket) (event : ClientEvent) (hub : Hub) (seat : Option (Wire × Wire))
      → P hub
      → P (dispatch u m socket event hub seat).1
  dispatch_kept socket event hub none p = p
  dispatch_kept socket event hub (some (code, id)) p =
      act_as_kept socket event hub (require_own_seat u socket code id) p

  handle_kept :
      (socket : Socket) (event : ClientEvent) (hub : Hub)
      → P hub
      → P (handle u m socket event hub).1
  unfolding handle
  handle_kept socket (ClientEvents.room_join code id name) hub p =
      join_kept socket code id name hub p
  handle_kept socket event hub p = dispatch_kept socket event hub (seat_of event) p

  guard_kept :
      (acked : Bool) (socket : Socket) (h : Handled) → P h.1 → P (guard u m acked socket h).1
  unfolding guard
  guard_kept true socket (ok reply, hub) p = p
  guard_kept true socket (err e, hub) p = p
  guard_kept false socket (ok reply, hub) p = p
  guard_kept false socket (err e, hub) p = k.effects _ hub p

  pub guarded_kept :
      (acked : Bool) (socket : Socket) (event : ClientEvent) (hub : Hub)
      → P hub
      → P (guard u m acked socket (handle u m socket event hub)).1
  guarded_kept acked socket event hub p =
      guard_kept acked socket (handle u m socket event hub) (handle_kept socket event hub p)

  pub disconnect_kept :
      (grace_ms : ℕ) (socket : Socket) (hub : Hub) → P hub → P (disconnect u m grace_ms socket hub)
  unfolding disconnect
  disconnect_kept grace_ms socket hub p = elim (Option-cases (truthy socket.player_id)) [
    | inl e ↦ rw (e, disconnect) p
    | inr (player, e) ↦ elim (Option-cases (truthy socket.room_code)) [
      | inl f ↦ rw (e, f, disconnect) p
      | inr (room, f) ↦ rw (e, f, disconnect) (k.schedules room player grace_ms hub p)
    ]
  ]
