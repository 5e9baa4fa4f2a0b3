-- ===== src/Server/Runs.antt =====
-- What holds in every run of the service: its rooms come from the commands on rooms.
use dance_sync_back_end.Base.{refl, sym, subst, List}
use dance_sync_back_end.Identity.{Unicode}
use dance_sync_back_end.RoomRepository.{Rooms}
use dance_sync_back_end.RoomRepository.Stored.{AllValid}
use dance_sync_back_end.UseCases.Requests.Validity.{serve_all-AllValid}
use dance_sync_back_end.SocketHandlers.Hub.{Hub, Moment, forget_room_timers}
use dance_sync_back_end.Server.{Graces, Happening, run, close}
use dance_sync_back_end.Server.Kept.{IsKept}
use dance_sync_back_end.Server.Commands.{Serves, kept, served, Serves_trans}
use dance_sync_back_end.Server.Steps.{run_kept}

Serves-IsKept :
    (u : Unicode) (before : Rooms) (m : Moment) → IsKept u m (λ h. Serves u before h.rooms)
unfolding forget_room_timers close
Serves-IsKept u before m = record {
  serves =
      λ request h p. Serves_trans u before h.rooms _ p (served u m.random request h.rooms _ refl);
  races = λ races scheduler h p. p;
  sockets = λ sockets h p. p;
  effects = λ effects h p. p;
  arms = λ room h p. p;
  forgets = λ code h p. p;
  fires = λ handle h p. p;
  cancels = λ code id h p. p;
  schedules = λ code id delay h p. p;
  watches = λ code id delay h p. p;
  notes = λ since h p. p;
  sweeps = λ code id bound grace h p. p;
  graces = λ handle h p. p;
  new_rooms = λ handle h p. p;
  closes = λ h p. p;
}

-- However socket events, connections, timers, sweeps and HTTP requests follow each other, the rooms
-- are what a sequence of the commands on rooms makes of them.
pub run-Serves :
    (u : Unicode) (g : Graces) (events : List (Moment × Happening)) (hub : Hub)
    → Serves u hub.rooms (run u g events hub).rooms
run-Serves u g events hub =
    run_kept u g (λ h. Serves u hub.rooms h.rooms) (Serves-IsKept u hub.rooms) events hub
      (kept u hub.rooms hub.rooms refl)

-- When every stored room is in order, every stored room is in order after any run of the service.
pub run-AllValid :
    (u : Unicode) (g : Graces) (events : List (Moment × Happening)) (hub : Hub)
    → AllValid hub.rooms
    → AllValid (run u g events hub).rooms
run-AllValid u g events hub h =
    let (requests, e) = run-Serves u g events hub in
    subst AllValid (sym e) (serve_all-AllValid u requests hub.rooms h)
