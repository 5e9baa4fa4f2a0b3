-- ===== src/SocketHandlers.antt =====
-- infrastructure/ws/socketHandlers.ts: the deadline timers of rooms (Arming), the seats of players
-- without a connection (Seats), the sockets and who they act as (Sockets), the messages (ClientEvents,
-- Signals), the shared paths and the sweep (Hub), what a leave spares (Leaving), the handlers (Events,
-- Joins), the deadlines (Deadlines) and the rooms that the sweep finds abandoned (Sweeps).
pub mod Arming
pub mod Seats
pub mod Sockets
pub mod ClientEvents
pub mod Hub
pub mod Leaving
pub mod Signals
pub mod Events
pub mod Joins
pub mod Deadlines
pub mod Sweeps
