-- ===== src/Server.antt =====
-- The running service, as server.ts wires it: what happens to it, and what it does then. Socket.IO, Node
-- and Express decide what happens and when.
pub mod Kept
pub mod Commands
pub mod Releases
pub mod Events
pub mod Joins
pub mod Requests
pub mod Steps
pub mod Runs
pub mod RoundEnds
pub mod Timed
pub mod TimedRuns
pub mod Closing
use dance_sync_back_end.Base.{
  ℕ, ◌+◌, Bool, not, Option, none, some, List, [], ◌∷◌, filter, Text, ◌==◌,
}
use dance_sync_back_end.Model.{Wire}
use dance_sync_back_end.Identity.{Unicode}
use dance_sync_back_end.RoomTimers
use dance_sync_back_end.WordRaceScheduler.{RaceBroadcast, round_started, round_ended, timer_runs}
use dance_sync_back_end.SocketHandlers.Seats.{Seat, Seats, grace_runs, new_room_runs, close_seats}
use dance_sync_back_end.SocketHandlers.Sockets.{Socket}
use dance_sync_back_end.SocketHandlers.ClientEvents.{
  ClientEvent, word_round_started, word_round_ended,
}
use dance_sync_back_end.SocketHandlers.Hub.{
  to_channel, Hub, Moment, emit, release_seat_if_abandoned, sweep,
}
use dance_sync_back_end.SocketHandlers.Events.{find_socket}
use dance_sync_back_end.SocketHandlers.Joins.{handle, guard, disconnect}
use dance_sync_back_end.SocketHandlers.Deadlines.{deadline_runs}
use dance_sync_back_end.HttpRoutes.{ParsesJson, LeaveBody, post_room, post_leave}

-- deps.disconnectGraceMs, deps.pagehideGraceMs
pub record Graces : Type 0 where
  pub disconnect_ms : ℕ
  pub pagehide_ms : ℕ

-- CREATED_ROOM_MARGIN_MS; server.ts does not set createdRoomGraceMs
abbrev pub created_room_margin_ms : ℕ
created_room_margin_ms = 5000

-- A socket, by its id, connects, sends an event (with an ack or without), or is gone; a timer, by its
-- handle, runs; a request comes in; or the process is told to stop.
pub data Happening : Type 0 where
  connects : Text → Happening
  receives : Text → Bool → ClientEvent → Happening
  disconnects : Text → Happening
  deadline_due grace_due new_room_due race_timer_due : ℕ → Happening
  sweep_due : Happening
  posts_room : Wire → Wire → List Text → Happening
  posts_leave : ParsesJson → Text → LeaveBody → Happening
  shuts_down : Happening

-- createSocketWordRaceBroadcaster
abbrev pub broadcast : Option RaceBroadcast → Hub → Hub
broadcast none hub = hub
broadcast (some (round_started p)) hub = emit (to_channel p.room_code) (word_round_started p) hub
broadcast (some (round_ended p)) hub = emit (to_channel p.room_code) (word_round_ended p) hub

-- Socket.IO puts a new socket into a channel of its own.
abbrev pub connected : Text → Hub → Hub
connected id hub = record hub {
  sockets =
      record { id = id; player_id = none; room_code = none; channels = id ∷ [] } ∷ hub.sockets;
}

abbrev pub without_socket : Text → Hub → Hub
without_socket id hub = record hub {
  sockets = filter (λ (s : Socket). not (s.id == id)) hub.sockets;
}

-- close of SocketHandlersHandle. The interval of the sweep is stopped by it too.
unfoldable pub close : Hub → Hub
close hub = record hub {
  seats = close_seats hub.seats;
  arming = record { room_timers = RoomTimers.close hub.arming.room_timers; armed_versions = [] };
}

module _ (u : Unicode) (g : Graces) (m : Moment) where
  -- The callback of a timer of a seat releases the seat, if it is to be released.
  abbrev pub seat_due : Option Seat × Seats → Hub → Hub
  seat_due (none, seats) hub = record hub { seats = seats }
  seat_due (some seat, seats) hub =
      release_seat_if_abandoned u m seat.room_code seat.player_id (record hub { seats = seats })

  abbrev pub received : Bool → ClientEvent → Hub → Option Socket → Hub
  received acked event hub none = hub
  received acked event hub (some socket) = (guard u m acked socket (handle u m socket event hub)).1

  abbrev pub gone : Text → Hub → Option Socket → Hub
  gone id hub none = hub
  gone id hub (some socket) = disconnect u m g.disconnect_ms socket (without_socket id hub)

  unfoldable pub step : Happening → Hub → Hub
  step (connects id) hub = connected id hub
  step (receives id acked event) hub = received acked event hub (find_socket id hub.sockets)
  step (disconnects id) hub = gone id hub (find_socket id hub.sockets)
  step (deadline_due handle) hub = deadline_runs u m handle hub
  step (grace_due handle) hub = seat_due (grace_runs handle hub.seats) hub
  step (new_room_due handle) hub = seat_due (new_room_runs handle hub.seats) hub
  step (race_timer_due handle) hub =
      let (said, (races, scheduler)) =
        timer_runs u handle m.now hub.rooms hub.races hub.scheduler in
      broadcast said (record hub { races = races; scheduler = scheduler })
  step sweep_due hub = sweep u m g.disconnect_ms hub
  step (posts_room host_id display_name codes) hub =
      (post_room u m (g.disconnect_ms + created_room_margin_ms) host_id display_name codes hub).1
  step (posts_leave parse code body) hub = (post_leave u m parse g.pagehide_ms code body hub).1
  step shuts_down hub = close hub

module _ (u : Unicode) (g : Graces) where
  unfoldable pub run : List (Moment × Happening) → Hub → Hub
  unfolding step
  run [] hub = hub
  run ((m, happening) ∷ rest) hub = run rest (step u g m happening hub)
