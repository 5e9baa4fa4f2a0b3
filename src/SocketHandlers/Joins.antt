-- ===== src/SocketHandlers/Joins.antt =====
-- room:join of socketHandlers.ts, the dispatch of all events with guard, and the disconnect.
pub mod Authority
use dance_sync_back_end.Base.{
  ℕ, Bool, true, false, not, ◌&&◌, ◌||◌, Option, none, some, List, [], ◌∷◌, Text, ◌==◌, remove, ◌⊎◌,
  inl, inr, if◌then◌else◌,
}
use dance_sync_back_end.Errors.{
  Result, ok, err, domain_error, range_error, plain_error, out_of_fuel, DomainErrorCode, Failure,
}
use dance_sync_back_end.Model.{Room, Wire, string, is_battling}
use dance_sync_back_end.Identity.{Unicode}
use dance_sync_back_end.RoomService.{has_player}
use dance_sync_back_end.RoomService.Battles.{vote_of}
use dance_sync_back_end.RoomRepository.{Rooms}
use dance_sync_back_end.UseCases.{Departure, join_room}
use dance_sync_back_end.UseCases.WordRaces.{get_active_word_round}
use dance_sync_back_end.RoomDto.{to_room_dto}
use dance_sync_back_end.WordRaceMessages.{round_started_payload}
use dance_sync_back_end.SocketHandlers.Seats.{cancel_grace, schedule_grace, seat_key, Seats}
use dance_sync_back_end.SocketHandlers.Sockets.{
  Socket, truthy, unbind_socket, player_channel, require_own_seat,
}
use dance_sync_back_end.SocketHandlers.ClientEvents
use dance_sync_back_end.SocketHandlers.ClientEvents.{
  ClientEvent, Reply, WebRtcSignal, ErrorCode, room_join, room_reply, vote_mine, word_round_started,
  error_domain,
}
use dance_sync_back_end.SocketHandlers.Hub.{to_socket, Hub, Moment, emit, publish_room, leave_seat}
use dance_sync_back_end.SocketHandlers.Events.{
  Handled, after_rooms, set_socket, join_channel, find_socket, act,
}

-- The room and the player that an event other than room:join names.
abbrev pub seat_of : ClientEvent → Option (Wire × Wire)
seat_of (ClientEvents.room_join code id name) = none
seat_of (ClientEvents.room_leave code id) = some (code, id)
seat_of (ClientEvents.role_select code id role) = some (code, id)
seat_of (ClientEvents.player_ready code id ready) = some (code, id)
seat_of (ClientEvents.player_kick code requester id) = some (code, requester)
seat_of (ClientEvents.battle_start code requester ids) = some (code, requester)
seat_of (ClientEvents.song_challenge_start code requester) = some (code, requester)
seat_of (ClientEvents.song_challenge_submit code id attempt) = some (code, id)
seat_of (ClientEvents.song_choose code id song_id) = some (code, id)
seat_of (ClientEvents.chat_send code sender content) = some (code, sender)
seat_of (ClientEvents.vote_cast code voter dancer) = some (code, voter)
seat_of (ClientEvents.room_rematch code requester) = some (code, requester)
seat_of (ClientEvents.word_submit code id round_id attempt) = some (code, id)
seat_of (ClientEvents.webrtc_ready code id) = some (code, id)
seat_of (ClientEvents.webrtc_signal signal) = some (signal.room_code, signal.from)

-- The socket as it is now.
abbrev pub current : Socket → Hub → Socket
current socket hub = elim (find_socket socket.id hub.sockets) [ none ↦ socket | some s ↦ s ]

-- catch (error) { if (!(error instanceof DomainError)) throw error; }
abbrev pub unexpected {ℓ} : {A : Type ℓ} → Result A → Option Failure
unexpected (ok a) = none
unexpected (err (domain_error code)) = none
unexpected (err range_error) = some range_error
unexpected (err plain_error) = some plain_error
unexpected (err out_of_fuel) = some out_of_fuel

module _ (u : Unicode) (m : Moment) where
  abbrev pub same_room_code : Text → Text → Bool
  same_room_code a b = u.to_upper_case a == u.to_upper_case b

  -- The seat of another room, or of another player, that the socket was bound to.
  abbrev pub previous_seat : Socket → Text → Text → Option (Text × Text)
  previous_seat socket code player_id = elim (truthy socket.room_code) [
    | none ↦ none
    | some room ↦ elim (truthy socket.player_id) [
      | none ↦ none
      | some player ↦
          if not (same_room_code room code) || not (player == player_id)
          then some (room, player)
          else none
    ]
  ]

  unfoldable pub leave_previous_binding : Socket → Text → Text → Hub → Option Failure × Hub
  leave_previous_binding socket room player hub =
      let (r, after) = leave_seat u m room player hub in
      elim (unexpected r) [
        | some e ↦ (some e, after)
        | none ↦ (
          none,
          record after {
            sockets = set_socket (unbind_socket (current socket after)) after.sockets;
          },
        )
      ]

  unfoldable pub resync_word_round : Socket → Text → Hub → Hub
  resync_word_round socket code hub = elim (get_active_word_round u code m.now hub.races) [
    | none ↦ hub
    | some (race, round) ↦
        emit (to_socket socket.id) (word_round_started (round_started_payload race round m.now)) hub
  ]

  abbrev pub show_vote : Socket → Room → Text → Hub → Hub
  show_vote socket room player_id hub = elim room.battle [
    | none ↦ hub
    | some battle ↦
        if has_player room.spectators player_id
        then emit (to_socket socket.id) (vote_mine room.code (vote_of room player_id)) hub
        else hub
  ]

  -- The binding and the channels, then the room is published.
  unfoldable pub seated : Socket → Text → Room → Hub → Handled
  unfolding resync_word_round
  seated socket player_id room hub =
      let key = seat_key u room.code player_id in
      let kept = cancel_grace u room.code player_id hub.seats in
      let bound : Socket = record (current socket hub) {
        player_id = some player_id;
        room_code = some room.code;
        channels =
            join_channel (player_channel player_id)
              (join_channel room.code (current socket hub).channels);
      } in
      let published = publish_room u m room (record hub {
        seats = record kept { unbound_since = remove key kept.unbound_since };
        sockets = set_socket bound hub.sockets;
      }) in
      let synced =
        if is_battling room.status
        then resync_word_round socket room.code published
        else published in
      (ok (room_reply (to_room_dto room m.now)), show_vote socket room player_id synced)

  -- The same room under a new identity is read again, since the departure changed it.
  unfoldable pub moved :
      Socket → Text → Text → (Hub → Result Room × Rooms) → Room → Option Failure × Hub → Handled
  unfolding seated
  moved socket player_id previous_room rejoin room (some e, hub) = (err e, hub)
  moved socket player_id previous_room rejoin room (none, hub) =
      if same_room_code previous_room room.code
      then after_rooms (rejoin hub) hub (seated socket player_id)
      else seated socket player_id room hub

  unfoldable pub take_seat : Socket → Text → (Hub → Result Room × Rooms) → Room → Hub → Handled
  unfolding moved leave_previous_binding seated
  take_seat socket player_id rejoin room hub = elim (previous_seat socket room.code player_id) [
    | none ↦ seated socket player_id room hub
    | some (previous_room, previous_player) ↦
        moved socket player_id previous_room rejoin room
          (leave_previous_binding socket previous_room previous_player hub)
  ]

  -- the id that was validated, hence a text
  abbrev pub id_of : Wire → Text
  id_of (string id) = id
  id_of _ = []

  unfoldable pub join : Socket → Wire → Wire → Wire → Hub → Handled
  unfolding take_seat
  join socket room_code player_id name hub =
      let execute : Hub → Result Room × Rooms = λ h. join_room u room_code player_id name h.rooms in
      after_rooms (execute hub) hub (take_seat socket (id_of player_id) execute)

  abbrev pub act_as : Socket → ClientEvent → Hub → Result (Text × Text) → Handled
  act_as socket event hub (err e) = (err e, hub)
  act_as socket event hub (ok (room_code, player)) = act u m socket room_code player event hub

  abbrev pub dispatch : Socket → ClientEvent → Hub → Option (Wire × Wire) → Handled
  dispatch socket event hub none = (err plain_error, hub)
  dispatch socket event hub (some (room_code, player_id)) =
      act_as socket event hub (require_own_seat u socket room_code player_id)

  -- The handler of an event.
  unfoldable pub handle : Socket → ClientEvent → Hub → Handled
  unfolding join
  handle socket (room_join room_code player_id name) hub = join socket room_code player_id name hub
  handle socket event hub = dispatch socket event hub (seat_of event)

  abbrev pub error_code : Failure → ErrorCode
  error_code (domain_error code) = some code
  error_code range_error = none
  error_code plain_error = none
  error_code out_of_fuel = none

  -- The acknowledgement, if the client asked for one; an error goes to the socket otherwise.
  unfoldable pub guard : Bool → Socket → Handled → Option (Reply ⊎ ErrorCode) × Hub
  guard true socket (ok reply, hub) = (some (inl reply), hub)
  guard true socket (err e, hub) = (some (inr (error_code e)), hub)
  guard false socket (ok reply, hub) = (none, hub)
  guard false socket (err e, hub) =
      (none, emit (to_socket socket.id) (error_domain (error_code e)) hub)

  -- The seat is kept for a while.
  unfoldable pub disconnect : ℕ → Socket → Hub → Hub
  disconnect disconnect_grace_ms socket hub = elim (truthy socket.player_id) [
    | none ↦ hub
    | some player_id ↦ elim (truthy socket.room_code) [
      | none ↦ hub
      | some room_code ↦ record hub {
        seats = schedule_grace u room_code player_id disconnect_grace_ms m.now hub.seats;
      }
    ]
  ]
