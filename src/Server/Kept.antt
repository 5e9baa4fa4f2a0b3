-- ===== src/Server/Kept.antt =====
-- What a property of the state needs to hold all along: that each operation of the components keeps it.
use dance_sync_back_end.Base.{ℕ, Bool, List, Text, Dict}
use dance_sync_back_end.Model.{Room}
use dance_sync_back_end.Identity.{Unicode}
use dance_sync_back_end.WordRaceRepository.{Races}
use dance_sync_back_end.UseCases.Requests.{Request, serve}
use dance_sync_back_end.RoomTimers.{fire}
use dance_sync_back_end.WordRaceScheduler.{Scheduler}
use dance_sync_back_end.SocketHandlers.Arming.{arm_room_timers}
use dance_sync_back_end.SocketHandlers.Seats.{
  cancel_grace, schedule_grace, watch_new_room, sweep_seat, grace_runs, new_room_runs,
}
use dance_sync_back_end.SocketHandlers.Sockets.{Socket}
use dance_sync_back_end.SocketHandlers.Hub.{Hub, Effect, Moment, forget_room_timers}
use dance_sync_back_end.Server.{close}

pub record IsKept {ℓ} (u : Unicode) (m : Moment) (P : Hub → Type ℓ) : Type ℓ where
  pub serves :
      (request : Request) (h : Hub)
      → P h
      → P (record h { rooms = serve u m.random request h.rooms })
  pub races :
      (races : Races) (scheduler : Scheduler) (h : Hub)
      → P h
      → P (record h { races = races; scheduler = scheduler })
  pub sockets : (sockets : List Socket) (h : Hub) → P h → P (record h { sockets = sockets })
  pub effects : (effects : List Effect) (h : Hub) → P h → P (record h { effects = effects })
  pub arms :
      (room : Room) (h : Hub)
      → P h
      → P (record h { arming = arm_room_timers u room m.now h.arming })
  pub forgets : (code : Text) (h : Hub) → P h → P (forget_room_timers u m code h)
  pub fires :
      (handle : ℕ) (h : Hub)
      → P h
      → P (record h {
        arming = record h.arming { room_timers = (fire handle h.arming.room_timers).1 };
      })
  pub cancels :
      (code id : Text) (h : Hub) → P h → P (record h { seats = cancel_grace u code id h.seats })
  pub schedules :
      (code id : Text) (delay : ℕ) (h : Hub)
      → P h
      → P (record h { seats = schedule_grace u code id delay m.now h.seats })
  pub watches :
      (code id : Text) (delay : ℕ) (h : Hub)
      → P h
      → P (record h { seats = watch_new_room u code id delay m.now h.seats })
  pub notes :
      (since : Dict ℕ) (h : Hub)
      → P h
      → P (record h { seats = record h.seats { unbound_since = since } })
  pub sweeps :
      (code id : Text) (bound : Bool) (grace : ℕ) (h : Hub)
      → P h
      → P (record h { seats = (sweep_seat u code id bound grace m.now h.seats).1 })
  pub graces : (handle : ℕ) (h : Hub) → P h → P (record h { seats = (grace_runs handle h.seats).1 })
  pub new_rooms :
      (handle : ℕ) (h : Hub) → P h → P (record h { seats = (new_room_runs handle h.seats).1 })
  pub closes : (h : Hub) → P h → P (close h)
