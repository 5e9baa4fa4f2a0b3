-- ===== src/SocketHandlers/Seats.antt =====
-- The seats of players without a connection in socketHandlers.ts: the grace after a disconnect, the
-- rooms that wait for their host, and when a seat was last seen without a socket.
pub mod Graces
use dance_sync_back_end.Base.{
  ℕ, ◌+◌, ◌-◌, Bool, true, false, not, ◌&&◌, ◌||◌, Option, none, some, List, [], ◌∷◌, ◌++◌, Text,
  text, Dict, lookup, has, insert, remove, leb, if◌then◌else◌,
}
use dance_sync_back_end.Identity.{Unicode}
use dance_sync_back_end.RoomTimers
use dance_sync_back_end.Timeouts.{
  Timeout, Timeouts, find_timeout, drop_timeout, renew, cancel, no_timeouts,
}

-- The room code and the player id that a timer was scheduled for.
pub record Seat : Type 0 where
  pub room_code : Text
  pub player_id : Text

pub record Seats : Type 0 where
  pub graces : Timeouts Seat
  pub grace_deadlines : Dict ℕ
  pub new_rooms : Timeouts Seat
  pub unbound_since : Dict ℕ

-- pending !== undefined && pending <= deadline
abbrev pub is_no_later : Option ℕ → ℕ → Bool
is_no_later none deadline = false
is_no_later (some pending) deadline = leb pending deadline

module _ (u : Unicode) where
  abbrev pub seat_key : Text → Text → Text
  seat_key room_code player_id = u.to_upper_case room_code ++ text ":" ++ player_id

  unfoldable pub cancel_grace : Text → Text → Seats → Seats
  cancel_grace room_code player_id s =
      let key = seat_key room_code player_id in
      record s { graces = cancel key s.graces; grace_deadlines = remove key s.grace_deadlines }

  unfoldable pub schedule_grace : Text → Text → ℕ → ℕ → Seats → Seats
  unfolding cancel_grace
  schedule_grace room_code player_id delay_ms now s =
      let key = seat_key room_code player_id in
      let cancelled = cancel_grace room_code player_id s in
      if has key s.graces.timers && is_no_later (lookup key s.grace_deadlines) (now + delay_ms)
      then s
      else record cancelled {
        unbound_since =
            if has key s.unbound_since then s.unbound_since else insert key now s.unbound_since;
        graces =
            renew key (now + delay_ms) (record { room_code = room_code; player_id = player_id })
              cancelled.graces;
        grace_deadlines = insert key (now + delay_ms) cancelled.grace_deadlines;
      }

  -- A room was created over HTTP.
  unfoldable pub watch_new_room : Text → Text → ℕ → ℕ → Seats → Seats
  watch_new_room room_code host_id created_room_grace_ms now s =
      let key = seat_key room_code host_id in
      record s {
        unbound_since = insert key now s.unbound_since;
        new_rooms =
            renew key (now + created_room_grace_ms)
              (record { room_code = room_code; player_id = host_id }) s.new_rooms;
      }

  -- One seat of the sweep, and whether it is to be released.
  unfoldable pub sweep_seat : Text → Text → Bool → ℕ → ℕ → Seats → Bool × Seats
  sweep_seat room_code player_id bound disconnect_grace_ms now s =
      let key = seat_key room_code player_id in
      let forgotten = record s { unbound_since = remove key s.unbound_since } in
      if bound
      then (false, forgotten)
      else if has key s.graces.timers || has key s.new_rooms.timers
      then (false, s)
      else elim (lookup key s.unbound_since) [
        | none ↦ (false, record s { unbound_since = insert key now s.unbound_since })
        | some since ↦
            if leb disconnect_grace_ms (now - since) then (true, forgotten) else (false, s)
      ]

-- The callbacks: the seat that is to be released, and the maps without the timer's key.
abbrev pub forget_timer : Timeout Seat → Timeouts Seat → Timeouts Seat
forget_timer p t = record t {
  timers = remove p.key t.timers;
  pending = drop_timeout p.handle t.pending;
}

unfoldable pub grace_runs : ℕ → Seats → Option Seat × Seats
grace_runs handle s = elim (find_timeout handle s.graces.pending) [
  | none ↦ (none, s)
  | some p ↦ (
    some p.task,
    record s { graces = forget_timer p s.graces; grace_deadlines = remove p.key s.grace_deadlines },
  )
]

-- A pending disconnect grace decides on its own.
unfoldable pub new_room_runs : ℕ → Seats → Option Seat × Seats
new_room_runs handle s = elim (find_timeout handle s.new_rooms.pending) [
  | none ↦ (none, s)
  | some p ↦ (
    (if has p.key s.graces.timers then none else some p.task),
    record s { new_rooms = forget_timer p s.new_rooms },
  )
]

-- The part of close that clears the timers of seats.
unfoldable pub close_seats : Seats → Seats
close_seats s = record s {
  graces = RoomTimers.close s.graces;
  grace_deadlines = [];
  new_rooms = RoomTimers.close s.new_rooms;
}
