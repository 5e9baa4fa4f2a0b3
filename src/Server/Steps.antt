-- ===== src/Server/Steps.antt =====
-- Every step of the service, and every run, as operations of the components.
use dance_sync_back_end.Base.{◌+◌, List, [], ◌∷◌, Option, none, some, Bool, Text}
use dance_sync_back_end.Identity.{Unicode}
use dance_sync_back_end.WordRaceScheduler.{RaceBroadcast, round_started, round_ended, timer_runs}
use dance_sync_back_end.SocketHandlers.Seats.{Seat, Seats, grace_runs, new_room_runs}
use dance_sync_back_end.SocketHandlers.Sockets.{Socket}
use dance_sync_back_end.SocketHandlers.ClientEvents.{ClientEvent}
use dance_sync_back_end.SocketHandlers.Hub.{Hub, Moment}
use dance_sync_back_end.SocketHandlers.Events.{find_socket}
use dance_sync_back_end.Server.{
  Graces, Happening, connects, receives, disconnects, deadline_due, grace_due, new_room_due,
  race_timer_due, sweep_due, posts_room, posts_leave, shuts_down, broadcast, seat_due, received,
  gone, step, run, created_room_margin_ms,
}
use dance_sync_back_end.Server.Kept.{IsKept}
use dance_sync_back_end.Server.Releases.{release_kept, sweep_kept}
use dance_sync_back_end.Server.Joins.{guarded_kept, disconnect_kept}
use dance_sync_back_end.Server.Requests.{deadline_runs_kept, post_room_kept, post_leave_kept}

module _ {ℓ} (u : Unicode) (m : Moment) (P : Hub → Type ℓ) (k : IsKept u m P) where
  broadcast_kept : (said : Option RaceBroadcast) (hub : Hub) → P hub → P (broadcast said hub)
  broadcast_kept none hub p = p
  broadcast_kept (some (round_started payload)) hub p = k.effects _ hub p
  broadcast_kept (some (round_ended payload)) hub p = k.effects _ hub p

  module _ (g : Graces) where
    seat_due_kept :
        (due : Option Seat) (seats : Seats) (hub : Hub)
        → P (record hub { seats = seats })
        → P (seat_due u g m (due, seats) hub)
    seat_due_kept none seats hub p = p
    seat_due_kept (some seat) seats hub p = release_kept u m P k seat.room_code seat.player_id _ p

    received_kept :
        (acked : Bool) (event : ClientEvent) (hub : Hub) (socket : Option Socket)
        → P hub
        → P (received u g m acked event hub socket)
    received_kept acked event hub none p = p
    received_kept acked event hub (some socket) p = guarded_kept u m P k acked socket event hub p

    gone_kept :
        (id : Text) (hub : Hub) (socket : Option Socket) → P hub → P (gone u g m id hub socket)
    gone_kept id hub none p = p
    gone_kept id hub (some socket) p =
        disconnect_kept u m P k g.disconnect_ms socket _ (k.sockets _ hub p)

    pub step_kept : (happening : Happening) (hub : Hub) → P hub → P (step u g m happening hub)
    unfolding step
    step_kept (connects id) hub p = k.sockets _ hub p
    step_kept (receives id acked event) hub p =
        received_kept acked event hub (find_socket id hub.sockets) p
    step_kept (disconnects id) hub p = gone_kept id hub (find_socket id hub.sockets) p
    step_kept (deadline_due handle) hub p = deadline_runs_kept u m P k handle hub p
    step_kept (grace_due handle) hub p =
        let (due, seats) = grace_runs handle hub.seats in
        seat_due_kept due seats hub (k.graces handle hub p)
    step_kept (new_room_due handle) hub p =
        let (due, seats) = new_room_runs handle hub.seats in
        seat_due_kept due seats hub (k.new_rooms handle hub p)
    step_kept (race_timer_due handle) hub p =
        let (said, (races, scheduler)) =
          timer_runs u handle m.now hub.rooms hub.races hub.scheduler in
        broadcast_kept said _ (k.races races scheduler hub p)
    step_kept sweep_due hub p = sweep_kept u m P k g.disconnect_ms hub p
    step_kept (posts_room id name codes) hub p =
        post_room_kept u m P k (g.disconnect_ms + created_room_margin_ms) id name codes hub p
    step_kept (posts_leave parse code body) hub p =
        post_leave_kept u m P k g.pagehide_ms parse code body hub p
    step_kept shuts_down hub p = k.closes hub p

-- A property that each operation of the components keeps, whenever it is called, holds after any run.
pub run_kept {ℓ} :
    (u : Unicode) (g : Graces) (P : Hub → Type ℓ)
    → ((m : Moment) → IsKept u m P)
    → (events : List (Moment × Happening)) (hub : Hub) → P hub
    → P (run u g events hub)
unfolding run
run_kept u g P k [] hub p = p
run_kept u g P k ((m, happening) ∷ events) hub p =
    run_kept u g P k events (step u g m happening hub) (step_kept u m P (k m) g happening hub p)
