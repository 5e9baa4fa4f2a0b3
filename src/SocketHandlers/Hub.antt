-- ===== src/SocketHandlers/Hub.antt =====
-- The state that registerSocketHandlers of socketHandlers.ts closes over, and the paths that several
-- handlers share. What is sent goes on a list, the latest first.
use dance_sync_back_end.Base.{
  ℕ, false, not, Option, none, some, List, [], ◌∷◌, ◌++◌, any, nat_eq, length, Text, remove, filter,
  includes, if◌then◌else◌,
}
use dance_sync_back_end.Errors.{Result, ok, err}
use dance_sync_back_end.Model.{Room, Player, is_battling}
use dance_sync_back_end.Identity.{Unicode}
use dance_sync_back_end.SongSelectionService.{RandomIndex, StartChallengeOptions}
use dance_sync_back_end.RoomService.Starting.{StartBattleOptions}
use dance_sync_back_end.WordRaceService.{PlanWordRaceOptions}
use dance_sync_back_end.RoomRepository.{Rooms}
use dance_sync_back_end.WordRaceRepository.{Races}
use dance_sync_back_end.UseCases.{Departure, leave_room}
use dance_sync_back_end.UseCases.Commands.{list_rooms, delete_if_empty}
use dance_sync_back_end.RoomTimers
use dance_sync_back_end.RoomDto.{to_room_dto}
use dance_sync_back_end.WordRaceScheduler.{Scheduler}
use dance_sync_back_end.WordRaceScheduler
use dance_sync_back_end.SocketHandlers.Arming.{Arming, arm_room_timers}
use dance_sync_back_end.SocketHandlers.Seats.{Seats, cancel_grace, seat_key, sweep_seat}
use dance_sync_back_end.SocketHandlers.Sockets.{
  Socket, is_bound, unbind_player, player_channel, is_same, in_channel,
}
use dance_sync_back_end.SocketHandlers.ClientEvents.{
  ServerEvent, room_updated, battle_started, battle_finished, vote_mine,
}

pub data Target : Type 0 where
  to_channel to_socket : Text → Target
  to_others : Text → Text → Target

-- An emitted event, or the record of a finished room that is handed to RecordMatchResult.
pub data Effect : Type 0 where
  emits : Target → ServerEvent → Effect
  records : Room → Effect

pub record Hub : Type 0 where
  pub rooms : Rooms
  pub races : Races
  pub sockets : List Socket
  pub seats : Seats
  pub arming : Arming
  pub scheduler : Scheduler
  pub effects : List Effect

-- What a handler reads when it runs: the clock, random values and fresh ids.
pub record Moment : Type 0 where
  pub now : ℕ
  pub random : RandomIndex
  pub start : StartBattleOptions
  pub challenge : StartChallengeOptions
  pub race : PlanWordRaceOptions
  pub message_id : Text

abbrev pub emit : Target → ServerEvent → Hub → Hub
emit target event hub = record hub { effects = emits target event ∷ hub.effects }

abbrev pub emit_vote_mine : Text → Text → Option Text → Hub → Hub
emit_vote_mine room_code voter_id dancer_id =
    emit (to_channel (player_channel voter_id)) (vote_mine room_code dancer_id)

abbrev pub tell_voters : Text → List Text → Hub → Hub
tell_voters room_code [] hub = hub
tell_voters room_code (voter_id ∷ voter_ids) hub =
    tell_voters room_code voter_ids (emit_vote_mine room_code voter_id none hub)

module _ (u : Unicode) (m : Moment) where
  -- room:updated, and the deadline timers from the room that is published
  unfoldable pub publish_room : Room → Hub → Hub
  publish_room room hub =
      let told = emit (to_channel room.code) (room_updated (to_room_dto room m.now)) hub in
      record told { arming = arm_room_timers u room m.now hub.arming }

  abbrev pub stop_race : Text → Hub → Hub
  stop_race room_code hub =
      let (races, scheduler) = WordRaceScheduler.stop u room_code hub.races hub.scheduler in
      record hub { races = races; scheduler = scheduler }

  -- A failure to plan the race is logged only.
  abbrev pub start_race : Text → Hub → Hub
  start_race room_code hub =
      let (_, (races, scheduler)) =
        WordRaceScheduler.start u room_code m.race m.now hub.rooms hub.races hub.scheduler in
      record hub { races = races; scheduler = scheduler }

  unfoldable pub announce_battle_started : Room → Hub → Hub
  unfolding publish_room
  announce_battle_started room hub = start_race room.code (
      publish_room room (emit (to_channel room.code) (battle_started (to_room_dto room m.now)) hub))

  abbrev pub record_match : Room → Hub → Hub
  record_match room hub = record hub { effects = records room ∷ hub.effects }

  unfoldable pub announce_battle_finished : Room → Hub → Hub
  unfolding publish_room
  announce_battle_finished room hub = stop_race room.code (
      record_match room (
        emit (to_channel room.code) (battle_finished (to_room_dto room m.now))
          (publish_room room hub)))

  unfoldable pub forget_room_timers : Text → Hub → Hub
  forget_room_timers room_code hub = record hub {
    arming = record {
      room_timers = RoomTimers.clear_room u room_code hub.arming.room_timers;
      armed_versions = remove (u.to_upper_case room_code) hub.arming.armed_versions;
    };
  }

  -- Spectators whose dancer left are told; then the room is gone, its battle is over, or it goes on.
  unfoldable pub announce_leave : Text → Option Room → Departure → Hub → Hub
  unfolding announce_battle_finished publish_room forget_room_timers
  announce_leave room_code none departure hub =
      stop_race room_code (forget_room_timers room_code hub)
  announce_leave room_code (some room) departure hub =
      let told = tell_voters room.code departure.discarded_voter_ids hub in
      let published = publish_room room told in
      if departure.battle_finished
      then announce_battle_finished room told
      else if not (is_battling room.status)
      then stop_race room.code published
      else published

  -- The sockets and the grace of a seat that was left.
  abbrev pub vacate : Text → Text → Hub → Hub
  vacate room_code player_id hub = record hub {
    seats = cancel_grace u room_code player_id hub.seats;
    sockets = unbind_player u room_code player_id hub.sockets;
  }

  unfoldable pub after_leave :
      Text → Text → Result (Option Room × Departure) → Hub → Result (Option Room × Departure) × Hub
  unfolding announce_leave
  after_leave room_code player_id (err e) hub = (err e, hub)
  after_leave room_code player_id (ok (room, departure)) hub = (
    ok (room, departure),
    announce_leave room_code room departure (vacate room_code player_id hub),
  )

  -- leaveRoom: an explicit leave, a released seat or a switch of rooms
  unfoldable pub leave_seat : Text → Text → Hub → Result (Option Room × Departure) × Hub
  unfolding after_leave
  leave_seat room_code player_id hub =
      let (r, rooms) = leave_room u room_code player_id m.now m.random hub.rooms in
      after_leave room_code player_id r (record hub { rooms = rooms })

  -- Errors are logged at most.
  unfoldable pub release_seat_if_abandoned : Text → Text → Hub → Hub
  unfolding leave_seat
  release_seat_if_abandoned room_code player_id hub =
      if is_bound room_code player_id hub.sockets
      then hub
      else (leave_seat room_code player_id hub).1

  -- The seats of a room in the sweep, with the sockets that were in its channel at the start.
  unfoldable pub sweep_players : ℕ → Text → List Socket → List Player → Hub → Hub
  unfolding release_seat_if_abandoned
  sweep_players grace_ms room_code present [] hub = hub
  sweep_players grace_ms room_code present (p ∷ players) hub =
      let (due, seats) =
        sweep_seat u room_code p.id (any (λ (s : Socket). is_same s.player_id p.id) present)
          grace_ms m.now hub.seats in
      let noted = record hub { seats = seats } in
      sweep_players grace_ms room_code present players
        (if due then release_seat_if_abandoned room_code p.id noted else noted)

  abbrev pub nobody_left : Departure
  nobody_left = record { battle_finished = false; discarded_voter_ids = [] }

  -- deleteIfEmpty; announceLeave only if it deleted the room
  unfoldable pub sweep_empty : Text → Hub → Hub
  unfolding announce_leave
  sweep_empty room_code hub =
      let (r, rooms) = delete_if_empty u room_code hub.rooms in
      let after = record hub { rooms = rooms } in
      elim r [
        | err e ↦ after
        | ok deleted ↦ if deleted then announce_leave room_code none nobody_left after else after
      ]

  abbrev pub arm_room : Room → Hub → Hub
  arm_room room hub = record hub { arming = arm_room_timers u room m.now hub.arming }

  unfoldable pub sweep_room : ℕ → Room → Hub → Hub
  unfolding sweep_players sweep_empty
  sweep_room grace_ms room hub =
      if nat_eq (length room.players) 0
      then sweep_empty room.code hub
      else sweep_players grace_ms room.code (in_channel room.code hub.sockets) room.players
          (arm_room room hub)

  unfoldable pub sweep_rooms : ℕ → List Room → Hub → Hub
  unfolding sweep_room
  sweep_rooms grace_ms [] hub = hub
  sweep_rooms grace_ms (room ∷ rooms) hub =
      sweep_rooms grace_ms rooms (sweep_room grace_ms room hub)

  abbrev pub seat_keys : Text → List Player → List Text
  seat_keys code [] = []
  seat_keys code (p ∷ players) = seat_key u code p.id ∷ seat_keys code players

  abbrev pub seats_of : List Room → List Text
  seats_of [] = []
  seats_of (room ∷ rooms) = seat_keys room.code room.players ++ seats_of rooms

  -- Seats that no longer exist are forgotten.
  unfoldable pub sweep : ℕ → Hub → Hub
  unfolding sweep_rooms
  sweep grace_ms hub =
      let rooms = list_rooms u hub.rooms in
      let swept = sweep_rooms grace_ms rooms hub in
      record swept {
        seats = record swept.seats {
          unbound_since = filter (λ e. includes (seats_of rooms) e.0) swept.seats.unbound_since;
        };
      }
