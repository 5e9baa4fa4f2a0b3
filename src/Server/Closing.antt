-- ===== src/Server/Closing.antt =====
-- The shutdown of the service.
use dance_sync_back_end.Base.{ℕ, ◌≡◌, refl, none}
use dance_sync_back_end.Identity.{Unicode}
use dance_sync_back_end.Timeouts.{find_timeout}
use dance_sync_back_end.RoomTimers.Clearing.{close-pending}
use dance_sync_back_end.SocketHandlers.Seats.{close_seats}
use dance_sync_back_end.SocketHandlers.Hub.{Hub, Moment}
use dance_sync_back_end.Server.Timed.{IsTimed}
use dance_sync_back_end.Server.{Graces, shuts_down, step, close}

-- Node holds no timer of a deadline, a grace or a new room.
pub record IsQuiet (hub : Hub) : Type 0 where
  pub rooms : (handle : ℕ) → find_timeout handle hub.arming.room_timers.pending ≡ none
  pub graces : (handle : ℕ) → find_timeout handle hub.seats.graces.pending ≡ none
  pub new_rooms : (handle : ℕ) → find_timeout handle hub.seats.new_rooms.pending ≡ none

-- When each Map of handles knows the timers that Node holds and the deadlines noted for the graces
-- are those of their timers, the shutdown leaves no timer of a deadline, a grace or a new room, and
-- changes no room.
pub shuts_down-IsQuiet :
    (u : Unicode) (g : Graces) (m : Moment) (hub : Hub)
    → IsTimed hub.arming hub.seats
    → IsQuiet (step u g m shuts_down hub) × ((step u g m shuts_down hub).rooms ≡ hub.rooms)
unfolding step close close_seats
shuts_down-IsQuiet u g m hub s = (
  record {
    rooms = λ h. close-pending hub.arming.room_timers h s.rooms;
    graces = λ h. close-pending hub.seats.graces h s.graces.synced;
    new_rooms = λ h. close-pending hub.seats.new_rooms h s.new_rooms;
  },
  refl,
)
