-- ===== src/SocketHandlers/Sweeps.antt =====
-- What the sweep of socketHandlers.ts does with a room that everybody has abandoned.
use dance_sync_back_end.Base.{
  ℕ, ◌-◌, ◌≤◌, ◌<◌, ◌≡◌, refl, true, false, none, some, List, [], ◌∷◌, Text, leb, lookup, insert,
  lookup-insert, remove, has, All, arith, eq_refl, filter, includes, Dict, text_discrete, nat_eq,
  length, sym, ap, ◌∙◌,
}
use dance_sync_back_end.Errors.{ok}
use dance_sync_back_end.Model.{Room, Player}
use dance_sync_back_end.Identity.{Unicode}
use dance_sync_back_end.SongSelectionService.{RandomIndex}
use dance_sync_back_end.RoomService.Departures.{leave}
use dance_sync_back_end.RoomService.Emptied.{leave-last}
use dance_sync_back_end.RoomRepository.{Rooms, key, find_by_code, list_codes}
use dance_sync_back_end.UseCases.{Departure, leave_room, departure_of, update_capturing, capture}
use dance_sync_back_end.UseCases.Commands.{list_rooms, found_rooms}
use dance_sync_back_end.SocketHandlers.Arming.{arm_room_timers}
use dance_sync_back_end.SocketHandlers.Seats.{Seats, seat_key, sweep_seat}
use dance_sync_back_end.SocketHandlers.Sockets.{is_bound}
use dance_sync_back_end.SocketHandlers.Leaving.{announce_leave-Spares}
use dance_sync_back_end.SocketHandlers.Hub.{
  Hub, Moment, sweep, sweep_rooms, sweep_room, sweep_players, release_seat_if_abandoned, leave_seat,
  after_leave, vacate,
}

lookup-filter {ℓ} :
    {V : Type ℓ} (k : Text) (m : Dict V)
    → lookup k (filter (λ (e : Text × V). includes (k ∷ []) e.0) m) ≡ lookup k m
lookup-filter k [] = refl
lookup-filter k ((j, v) ∷ m) = elim (text_discrete k j) [
  | yes same ↦ ground (arith, lookup-filter k m, same, eq_refl k, eq_refl j)
  | no differs ↦ ground (arith, lookup-filter k m)
]

-- A leave after which nobody is left deletes the room.
leave_deletes :
    (u : Unicode) (code id : Text) (now : ℕ) (random : RandomIndex) (rooms : Rooms)
    (current next : Room)
    → lookup (key u code) rooms ≡ some current
    → leave current id now random ≡ ok next
    → nat_eq (length next.players) 0 ≡ true
    → leave_room u code id now random rooms
      ≡ (ok (none, departure_of current next id), remove (key u code) rooms)
unfolding leave_room update_capturing capture dance_sync_back_end.RoomRepository.apply_change
leave_deletes u code id now random rooms current next f l nobody =
    rw (f, update_capturing) (rw (l, capture) (rw nobody refl))

module _ (u : Unicode) (grace : ℕ) where
  -- One sweep after the other.
  abbrev pub sweeps : List Moment → Hub → Hub
  sweeps [] hub = hub
  sweeps (m ∷ times) hub = sweeps times (sweep u m grace hub)

  module _ (room : Room) (p : Player) where
    abbrev alone : Room
    alone = record room { players = p ∷ [] }

    abbrev lone : Hub → Hub
    lone hub = record hub { rooms = (key u room.code, alone) ∷ [] }

    abbrev own_key : Text
    own_key = seat_key u room.code p.id

    abbrev kept : Seats → Seats
    kept s = record s { unbound_since = filter (λ e. includes (own_key ∷ []) e.0) s.unbound_since }

    lookup_lone : lookup (key u room.code) ((key u room.code, alone) ∷ []) ≡ some alone
    lookup_lone = ground (arith, eq_refl (key u room.code))

    find_lone : find_by_code u room.code ((key u room.code, alone) ∷ []) ≡ some alone
    unfolding find_by_code
    find_lone = lookup_lone

    list_lone : list_rooms u ((key u room.code, alone) ∷ []) ≡ alone ∷ []
    unfolding list_rooms list_codes found_rooms
    list_lone = rw (find_lone, found_rooms) refl

    abbrev armed : Moment → Hub → Hub
    armed m hub = record hub { arming = arm_room_timers u alone m.now hub.arming }

    sweep_waits :
        (m : Moment) (hub : Hub) (s : Seats)
        → is_bound room.code p.id hub.sockets ≡ false
        → sweep_seat u room.code p.id false grace m.now hub.seats ≡ (false, s)
        → sweep u m grace (lone hub) ≡ lone (record (armed m hub) { seats = kept s })
    unfolding sweep sweep_rooms sweep_room sweep_players is_bound
    sweep_waits m hub s b e = rw (list_lone, b, e, sweep) refl

    -- No timer will decide about the seat, and nobody is connected to it.
    pub record IsLeftTo (hub : Hub) : Type 0 where
      pub unbound : is_bound room.code p.id hub.sockets ≡ false
      pub no_grace : has own_key hub.seats.graces.timers ≡ false
      pub not_new : has own_key hub.seats.new_rooms.timers ≡ false

    -- The first sweep notes the moment.
    first_sweep :
        (m : Moment) (hub : Hub)
        → IsLeftTo hub
        → lookup own_key hub.seats.unbound_since ≡ none
        → (next : Hub) × (sweep u m grace (lone hub) ≡ lone next)
          × IsLeftTo next
          × (lookup own_key next.seats.unbound_since ≡ some m.now)
    unfolding sweep_seat
    first_sweep m hub i e =
        let since = insert own_key m.now hub.seats.unbound_since in
        let noted : Seats = record hub.seats { unbound_since = since } in
        (
          record (armed m hub) { seats = kept noted },
          sweep_waits m hub noted i.unbound (rw (i.no_grace, i.not_new, e, sweep_seat) refl),
          record { unbound = i.unbound; no_grace = i.no_grace; not_new = i.not_new },
          rw
              (
                lookup-filter own_key since,
                lookup-insert own_key own_key m.now hub.seats.unbound_since,
                eq_refl own_key,
              )
              refl,
        )

    -- A sweep within the grace changes nothing of it.
    early_sweep :
        (m : Moment) (hub : Hub) (start : ℕ)
        → IsLeftTo hub
        → lookup own_key hub.seats.unbound_since ≡ some start
        → m.now - start < grace
        → (next : Hub) × (sweep u m grace (lone hub) ≡ lone next)
          × IsLeftTo next
          × (lookup own_key next.seats.unbound_since ≡ some start)
    unfolding sweep_seat
    early_sweep m hub start i e h =
        let soon : leb grace (m.now - start) ≡ false = ground (arith, h) in
        (
          record (armed m hub) { seats = kept hub.seats },
          sweep_waits m hub hub.seats i.unbound
              (rw (i.no_grace, i.not_new, e, soon, sweep_seat) refl),
          record { unbound = i.unbound; no_grace = i.no_grace; not_new = i.not_new },
          rw (lookup-filter own_key hub.seats.unbound_since) e,
        )

    early_sweeps :
        (times : List Moment) (hub : Hub) (start : ℕ)
        → IsLeftTo hub
        → lookup own_key hub.seats.unbound_since ≡ some start
        → All (λ (m : Moment). m.now - start < grace) times
        → (next : Hub) × (sweeps times (lone hub) ≡ lone next)
          × IsLeftTo next
          × (lookup own_key next.seats.unbound_since ≡ some start)
    early_sweeps [] hub start i e h = (hub, refl, i, e)
    early_sweeps (m ∷ times) hub start i e h =
        let (next, s, j, f) = early_sweep m hub start i e h.0 in
        let (last, t, k, g) = early_sweeps times next start j f h.1 in
        (last, ap (sweeps times) s ∙ t, k, g)

    remove_lone : remove (key u room.code) ((key u room.code, alone) ∷ []) ≡ []
    remove_lone = ground (arith, eq_refl (key u room.code))

    leave_lone :
        (m : Moment)
        → (d : Departure) × (leave_room u room.code p.id m.now m.random
              ((key u room.code, alone) ∷ [])
            ≡ (ok (none, d), []))
    leave_lone m =
        let (next, l, empty) = leave-last alone p m.random m.now refl in
        (
          departure_of alone next p.id,
          leave_deletes u room.code p.id m.now m.random ((key u room.code, alone) ∷ []) alone next
                lookup_lone l (ground (arith, empty))
              ∙ ap (λ (r : Rooms). (ok (none, departure_of alone next p.id), r)) remove_lone,
        )

    leave_empties :
        (m : Moment) (hub : Hub) → (leave_seat u m room.code p.id (lone hub)).1.rooms ≡ []
    unfolding leave_seat after_leave
    leave_empties m hub =
        let (d, e) = leave_lone m in
        rw (e, leave_seat)
          (announce_leave-Spares u m room.code none d
            (vacate u m room.code p.id (record hub { rooms = [] }))).1

    -- The sweep that finds the grace over releases the seat.
    last_sweep :
        (m : Moment) (hub : Hub) (start : ℕ)
        → IsLeftTo hub
        → lookup own_key hub.seats.unbound_since ≡ some start
        → grace ≤ m.now - start
        → (sweep u m grace (lone hub)).rooms ≡ []
    unfolding sweep sweep_rooms sweep_room sweep_players is_bound sweep_seat
        release_seat_if_abandoned leave_seat
    last_sweep m hub start i e h =
        let due : leb grace (m.now - start) ≡ true = ground (arith, h) in
        rw (list_lone, i.unbound, i.no_grace, i.not_new, e, due, sweep)
          (leave_empties m (record (armed m hub) {
            seats = record hub.seats { unbound_since = remove own_key hub.seats.unbound_since };
          }))

  -- In a room that is the only one, where nobody but one player is left, when no timer decides
  -- about their seat, nobody is connected to it and no moment is noted for it: the first sweep and
  -- every sweep within the grace from then leave the room as it is, and the next sweep after the
  -- grace has passed deletes it.
  pub sweeps-IsCleanedUp :
      (room : Room) (p : Player) (first last : Moment) (times : List Moment) (hub : Hub)
      → room.players ≡ p ∷ []
      → hub.rooms ≡ (key u room.code, room) ∷ []
      → IsLeftTo room p hub
      → lookup (seat_key u room.code p.id) hub.seats.unbound_since ≡ none
      → All (λ (m : Moment). m.now - first.now < grace) times
      → grace ≤ last.now - first.now
      → ((sweeps (first ∷ times) hub).rooms ≡ (key u room.code, room) ∷ [])
        × ((sweep u last grace (sweeps (first ∷ times) hub)).rooms ≡ [])
  sweeps-IsCleanedUp room p first last times hub e r i free h late =
      let (noted, s, j, f) = first_sweep room p first hub i free in
      let (next, t, k, g) = early_sweeps room p times noted first.now j f h in
      let same : alone room p ≡ room = λ x. record room { players = sym e x } in
      let own : lone room p hub ≡ hub =
        ap (λ (q : Room). record hub { rooms = (key u room.code, q) ∷ [] }) same
        ∙ (λ x. record hub { rooms = sym r x }) in
      let swept : sweeps (first ∷ times) hub ≡ lone room p next =
        ap (sweeps (first ∷ times)) (sym own) ∙ ap (sweeps times) s ∙ t in
      (
        ap (λ (x : Hub). x.rooms) swept ∙ ap (λ (q : Room). (key u room.code, q) ∷ []) same,
        ap (λ (x : Hub). (sweep u last grace x).rooms) swept
            ∙ last_sweep room p last next first.now k g late,
      )
