-- ===== src/Server/TimedRuns.antt =====
-- What holds of the timers in every run of the service.
use dance_sync_back_end.Base.{ap, sym, ◌+◌, List}
use dance_sync_back_end.Identity.{Unicode}
use dance_sync_back_end.Timeouts.Synced.{renew-IsSynced}
use dance_sync_back_end.RoomTimers.Clearing.{timer_at-close, close-IsSynced}
use dance_sync_back_end.RoomTimers.Refinement.{clears_room, call, call-IsSynced}
use dance_sync_back_end.SocketHandlers.Seats.{cancel_grace, watch_new_room, seat_key, close_seats}
use dance_sync_back_end.SocketHandlers.Seats.Graces.{
  due_of, cancel_grace-IsNoted, schedule_grace-earlier,
}
use dance_sync_back_end.SocketHandlers.Hub.{Hub, Moment, forget_room_timers}
use dance_sync_back_end.Server.{Graces, Happening, run, close}
use dance_sync_back_end.Server.Kept.{IsKept}
use dance_sync_back_end.Server.Steps.{run_kept}
use dance_sync_back_end.Server.Timed.{
  IsTimed, arm_room_timers-IsSynced, sweep_seat-IsTimed, schedule_grace-new_rooms, fire-IsSynced,
  grace_runs-IsTimed, new_room_runs-IsTimed, noted-IsTimed,
}

IsTimed-IsKept : (u : Unicode) (m : Moment) → IsKept u m (λ h. IsTimed h.arming h.seats)
unfolding forget_room_timers close close_seats cancel_grace watch_new_room call
IsTimed-IsKept u m = record {
  serves = λ request h v. v;
  races = λ races scheduler h v. v;
  sockets = λ sockets h v. v;
  effects = λ effects h v. v;
  arms = λ room h v. record {
    rooms = arm_room_timers-IsSynced u room m.now h.arming v.rooms;
    graces = v.graces;
    new_rooms = v.new_rooms;
  };
  forgets = λ code h v. record {
    rooms = call-IsSynced u (clears_room code) h.arming.room_timers v.rooms;
    graces = v.graces;
    new_rooms = v.new_rooms;
  };
  fires = λ handle h v. record {
    rooms = fire-IsSynced handle h.arming.room_timers v.rooms;
    graces = v.graces;
    new_rooms = v.new_rooms;
  };
  cancels = λ code id h v. record {
    rooms = v.rooms;
    graces = cancel_grace-IsNoted u code id h.seats v.graces;
    new_rooms = v.new_rooms;
  };
  schedules = λ code id delay h v. record {
    rooms = v.rooms;
    graces = (schedule_grace-earlier u code id delay m.now h.seats v.graces).0;
    new_rooms = rw (schedule_grace-new_rooms u code id delay m.now h.seats) v.new_rooms;
  };
  watches = λ code id delay h v. record {
    rooms = v.rooms;
    graces = record { synced = v.graces.synced; noted = v.graces.noted };
    new_rooms = renew-IsSynced (seat_key u code id) (m.now + delay) _ h.seats.new_rooms v.new_rooms;
  };
  notes = λ since h v. noted-IsTimed h.arming h.seats since v;
  sweeps =
      λ code id bound grace h v. sweep_seat-IsTimed u code id bound grace m.now h.arming h.seats v;
  graces = λ handle h v. grace_runs-IsTimed handle h.arming h.seats v;
  new_rooms = λ handle h v. new_room_runs-IsTimed handle h.arming h.seats v;
  closes = λ h v. record {
    rooms = close-IsSynced h.arming.room_timers v.rooms;
    graces = record {
      synced = close-IsSynced h.seats.graces v.graces.synced;
      noted = λ k. sym (ap due_of (timer_at-close h.seats.graces k));
    };
    new_rooms = close-IsSynced h.seats.new_rooms v.new_rooms;
  };
}

-- In every run of the service, from a state in which each Map of handles knows the timers that Node
-- holds and the deadlines noted for the graces are those of their timers, this holds on.
pub run-IsTimed :
    (u : Unicode) (g : Graces) (events : List (Moment × Happening)) (hub : Hub)
    → IsTimed hub.arming hub.seats
    → IsTimed (run u g events hub).arming (run u g events hub).seats
run-IsTimed u g events hub v =
    run_kept u g (λ h. IsTimed h.arming h.seats) (IsTimed-IsKept u) events hub v
