-- ===== src/Server/Timed.antt =====
-- The Maps of handles of the service, and the timers that Node holds, under the operations on them.
use dance_sync_back_end.Base.{
  true, false, leb, ◌-◌, ◌+◌, ◌&&◌, ℕ, ◌≡◌, refl, Text, Option, none, some, inl, inr, Option-cases,
  Bool-cases, Bool, Dict, has, ◌||◌, lookup,
}
use dance_sync_back_end.Identity.{Unicode}
use dance_sync_back_end.Model.{Room}
use dance_sync_back_end.Timeouts.{Timeout, Timeouts, find_timeout, cancel}
use dance_sync_back_end.Timeouts.Synced.{IsSynced, cancel-IsSynced}
use dance_sync_back_end.RoomTimers.{RoomTimerKind, song_challenge, song_choose, battle_end, fire}
use dance_sync_back_end.RoomTimers.Clearing.{find_timeout-handle, fire-cancel}
use dance_sync_back_end.RoomTimers.Refinement.{sets, clears, call, call-IsSynced}
use dance_sync_back_end.SocketHandlers.Arming.{
  Deadline, Arming, set_or_clear, is_older, arm_room_timers,
}
use dance_sync_back_end.SocketHandlers.Seats.{
  is_no_later, Seat, Seats, cancel_grace, schedule_grace, sweep_seat, seat_key, forget_timer,
  grace_runs, new_room_runs,
}
use dance_sync_back_end.SocketHandlers.Seats.Graces.{IsNoted, cancelled-IsNoted}

-- Each Map of handles knows the timers that Node holds, and the deadlines noted for the graces are
-- those of their timers.
pub record IsTimed (arming : Arming) (seats : Seats) : Type 0 where
  pub rooms : IsSynced arming.room_timers
  pub graces : IsNoted seats
  pub new_rooms : IsSynced seats.new_rooms

module _ (u : Unicode) where
  set_or_clear-IsSynced :
      (code : Text) (kind : RoomTimerKind) (w : Option (ℕ × Deadline)) (now : ℕ)
      (t : Timeouts Deadline)
      → IsSynced t
      → IsSynced (set_or_clear u code kind w now t)
  unfolding set_or_clear call
  set_or_clear-IsSynced code kind none now t s = call-IsSynced u (clears code kind) t s
  set_or_clear-IsSynced code kind (some (at, task)) now t s =
      call-IsSynced u (sets code kind at task now) t s

  pub arm_room_timers-IsSynced :
      (room : Room) (now : ℕ) (a : Arming)
      → IsSynced a.room_timers
      → IsSynced (arm_room_timers u room now a).room_timers
  unfolding arm_room_timers
  arm_room_timers-IsSynced room now a s =
      elim (Bool-cases
        (is_older room.version (lookup (u.to_upper_case room.code) a.armed_versions))) [
          | inl old ↦ rw old s
          | inr new ↦ rw new (
              set_or_clear-IsSynced room.code battle_end _ now _ (
                set_or_clear-IsSynced room.code song_choose _ now _
                  (set_or_clear-IsSynced room.code song_challenge _ now a.room_timers s)))
        ]

pub fire-IsSynced : (handle : ℕ) (t : Timeouts Deadline) → IsSynced t → IsSynced (fire handle t).1
unfolding fire
fire-IsSynced handle t s = elim (Option-cases (find_timeout handle t.pending)) [
  | inl e ↦ rw (e, fire) s
  | inr (p, e) ↦ rw (fire-cancel handle p t s e) (cancel-IsSynced p.key t s)
]

-- The callback of a timer of a seat forgets it, as cancelling it does.
forget_timer-cancel :
    (handle : ℕ) (p : Timeout Seat) (t : Timeouts Seat)
    → IsSynced t
    → find_timeout handle t.pending ≡ some p
    → forget_timer p t ≡ cancel p.key t
unfolding cancel
forget_timer-cancel handle p t s e =
    rw (s.known handle p e, find_timeout-handle handle t.pending p e) refl

pub grace_runs-IsTimed :
    (handle : ℕ) (a : Arming) (s : Seats) → IsTimed a s → IsTimed a (grace_runs handle s).1
unfolding grace_runs
grace_runs-IsTimed handle a s v = elim (Option-cases (find_timeout handle s.graces.pending)) [
  | inl e ↦ rw (e, grace_runs) v
  | inr (p, e) ↦
      rw (e, forget_timer-cancel handle p s.graces v.graces.synced e, grace_runs)
        (record {
          rooms = v.rooms;
          graces =
              let w = cancelled-IsNoted p.key s v.graces in
              record { synced = w.synced; noted = w.noted };
          new_rooms = v.new_rooms;
        })
]

pub new_room_runs-IsTimed :
    (handle : ℕ) (a : Arming) (s : Seats) → IsTimed a s → IsTimed a (new_room_runs handle s).1
unfolding new_room_runs
new_room_runs-IsTimed handle a s v = elim (Option-cases (find_timeout handle s.new_rooms.pending)) [
  | inl e ↦ rw (e, new_room_runs) v
  | inr (p, e) ↦
      rw (e, forget_timer-cancel handle p s.new_rooms v.new_rooms e, new_room_runs)
        (record {
          rooms = v.rooms;
          graces = record { synced = v.graces.synced; noted = v.graces.noted };
          new_rooms = cancel-IsSynced p.key s.new_rooms v.new_rooms;
        })
]

-- When a seat was last seen without a socket has no timer.
pub noted-IsTimed :
    (a : Arming) (s : Seats) (since : Dict ℕ)
    → IsTimed a s
    → IsTimed a (record s { unbound_since = since })
noted-IsTimed a s since v = record {
  rooms = v.rooms;
  graces = record { synced = v.graces.synced; noted = v.graces.noted };
  new_rooms = v.new_rooms;
}

module _ (u : Unicode) where
  pub sweep_seat-IsTimed :
      (code id : Text) (bound : Bool) (grace now : ℕ) (a : Arming) (s : Seats)
      → IsTimed a s
      → IsTimed a (sweep_seat u code id bound grace now s).1
  unfolding sweep_seat
  sweep_seat-IsTimed code id true grace now a s v = noted-IsTimed a s _ v
  sweep_seat-IsTimed code id false grace now a s v =
      let key = seat_key u code id in
      elim (Bool-cases (has key s.graces.timers || has key s.new_rooms.timers)) [
        | inl pending ↦ rw (pending, sweep_seat) v
        | inr free ↦ elim (Option-cases (lookup key s.unbound_since)) [
          | inl e ↦ rw (free, e, sweep_seat) (noted-IsTimed a s _ v)
          | inr (since, e) ↦ elim (Bool-cases (leb grace (now - since))) [
            | inl due ↦ rw (free, e, due, sweep_seat) (noted-IsTimed a s _ v)
            | inr soon ↦ rw (free, e, soon, sweep_seat) v
          ]
        ]
      ]

  pub schedule_grace-new_rooms :
      (code id : Text) (delay now : ℕ) (s : Seats)
      → (schedule_grace u code id delay now s).new_rooms ≡ s.new_rooms
  unfolding schedule_grace cancel_grace
  schedule_grace-new_rooms code id delay now s =
      elim (Bool-cases (
        has (seat_key u code id) s.graces.timers
        && is_no_later (lookup (seat_key u code id) s.grace_deadlines) (now + delay))) [
          | inl held ↦ rw (held, schedule_grace) refl
          | inr free ↦ rw (free, schedule_grace) refl
        ]
