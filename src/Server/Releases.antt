-- ===== src/Server/Releases.antt =====
-- The publishing functions of socketHandlers.ts and those that release seats, as operations of the
-- components: a property that these keep is kept.
use dance_sync_back_end.Base.{
  ℕ, List, [], ◌∷◌, Option, none, some, inl, inr, Bool-cases, not, Text, nat_eq, length, any,
}
use dance_sync_back_end.Errors.{Result, ok, err, Result-cases}
use dance_sync_back_end.Model.{Room, Player, is_battling}
use dance_sync_back_end.Identity.{Unicode}
use dance_sync_back_end.UseCases.{Departure, leave_room}
use dance_sync_back_end.UseCases.Requests
use dance_sync_back_end.UseCases.Requests.{serve}
use dance_sync_back_end.UseCases.Commands.{delete_if_empty, list_rooms}
use dance_sync_back_end.SocketHandlers.Sockets.{Socket, is_same, is_bound, in_channel}
use dance_sync_back_end.SocketHandlers.Seats.{sweep_seat}
use dance_sync_back_end.SocketHandlers.Hub.{
  Hub, Moment, tell_voters, publish_room, stop_race, announce_battle_started,
  announce_battle_finished, announce_leave, vacate, after_leave, leave_seat,
  release_seat_if_abandoned, sweep_players, sweep_empty, sweep_room, sweep_rooms, sweep, arm_room,
  nobody_left,
}
use dance_sync_back_end.Server.Kept.{IsKept}

module _ {ℓ} (u : Unicode) (m : Moment) (P : Hub → Type ℓ) (k : IsKept u m P) where
  pub tell_voters_kept :
      (code : Text) (voters : List Text) (hub : Hub) → P hub → P (tell_voters code voters hub)
  tell_voters_kept code [] hub p = p
  tell_voters_kept code (v ∷ voters) hub p = tell_voters_kept code voters _ (k.effects _ hub p)

  pub publish_room_kept : (room : Room) (hub : Hub) → P hub → P (publish_room u m room hub)
  unfolding publish_room
  publish_room_kept room hub p = k.arms room _ (k.effects _ hub p)

  pub stop_race_kept : (code : Text) (hub : Hub) → P hub → P (stop_race u m code hub)
  stop_race_kept code hub p = k.races _ _ hub p

  pub battle_started_kept :
      (room : Room) (hub : Hub) → P hub → P (announce_battle_started u m room hub)
  unfolding announce_battle_started
  battle_started_kept room hub p = k.races _ _ _ (publish_room_kept room _ (k.effects _ hub p))

  pub battle_finished_kept :
      (room : Room) (hub : Hub) → P hub → P (announce_battle_finished u m room hub)
  unfolding announce_battle_finished
  battle_finished_kept room hub p =
      stop_race_kept room.code _ (k.effects _ _ (publish_room_kept room hub p))

  announce_leave_kept :
      (code : Text) (room : Option Room) (d : Departure) (hub : Hub)
      → P hub
      → P (announce_leave u m code room d hub)
  unfolding announce_leave
  announce_leave_kept code none d hub p = stop_race_kept code _ (k.forgets code hub p)
  announce_leave_kept code (some room) d hub p =
      let told = tell_voters_kept room.code d.discarded_voter_ids hub p in
      elim (Bool-cases d.battle_finished) [
        | inl over ↦ rw over (battle_finished_kept room _ told)
        | inr on ↦ elim (Bool-cases (not (is_battling room.status))) [
          | inl idle ↦ rw (on, idle) (stop_race_kept room.code _ (publish_room_kept room _ told))
          | inr busy ↦ rw (on, busy) (publish_room_kept room _ told)
        ]
      ]

  pub vacate_kept : (code id : Text) (hub : Hub) → P hub → P (vacate u m code id hub)
  vacate_kept code id hub p = k.sockets _ _ (k.cancels code id hub p)

  after_leave_kept :
      (code id : Text) (r : Result (Option Room × Departure)) (hub : Hub)
      → P hub
      → P (after_leave u m code id r hub).1
  unfolding after_leave
  after_leave_kept code id (err e) hub p = p
  after_leave_kept code id (ok (room, d)) hub p =
      announce_leave_kept code room d _ (vacate_kept code id hub p)

  pub leave_seat_kept : (code id : Text) (hub : Hub) → P hub → P (leave_seat u m code id hub).1
  unfolding leave_seat serve
  leave_seat_kept code id hub p =
      let (r, rooms) = leave_room u code id m.now m.random hub.rooms in
      after_leave_kept code id r (record hub { rooms = rooms })
        (k.serves (Requests.leaves code id m.now) hub p)

  pub release_kept :
      (code id : Text) (hub : Hub) → P hub → P (release_seat_if_abandoned u m code id hub)
  unfolding release_seat_if_abandoned
  release_kept code id hub p = elim (Bool-cases (is_bound code id hub.sockets)) [
    | inl back ↦ rw back p
    | inr away ↦ rw away (leave_seat_kept code id hub p)
  ]

  sweep_players_kept :
      (grace_ms : ℕ) (code : Text) (present : List Socket) (players : List Player) (hub : Hub)
      → P hub
      → P (sweep_players u m grace_ms code present players hub)
  unfolding sweep_players
  sweep_players_kept grace_ms code present [] hub p = p
  sweep_players_kept grace_ms code present (player ∷ players) hub p =
      let bound = any (λ (s : Socket). is_same s.player_id player.id) present in
      let (due, seats) = sweep_seat u code player.id bound grace_ms m.now hub.seats in
      let noted : Hub = record hub { seats = seats } in
      let q = k.sweeps code player.id bound grace_ms hub p in
      elim (Bool-cases due) [
        | inl now ↦
            rw (now, sweep_players)
              (sweep_players_kept grace_ms code present players _
                (release_kept code player.id noted q))
        | inr later ↦
            rw (later, sweep_players) (sweep_players_kept grace_ms code present players noted q)
      ]

  sweep_empty_kept : (code : Text) (hub : Hub) → P hub → P (sweep_empty u m code hub)
  unfolding sweep_empty serve
  sweep_empty_kept code hub p =
      let after = k.serves (Requests.reaps code) hub p in
      elim (Result-cases (delete_if_empty u code hub.rooms).0) [
        | inl (f, e) ↦ rw (e, sweep_empty) after
        | inr (deleted, e) ↦
            rw (e, sweep_empty)
              (elim (Bool-cases deleted) [
                | inl gone ↦ rw gone (announce_leave_kept code none (nobody_left u m) _ after)
                | inr there ↦ rw there after
              ])
      ]

  sweep_room_kept :
      (grace_ms : ℕ) (room : Room) (hub : Hub) → P hub → P (sweep_room u m grace_ms room hub)
  unfolding sweep_room
  sweep_room_kept grace_ms room hub p = elim (Bool-cases (nat_eq (length room.players) 0)) [
    | inl empty ↦ rw empty (sweep_empty_kept room.code hub p)
    | inr full ↦ rw full (
        sweep_players_kept grace_ms room.code (in_channel room.code hub.sockets) room.players
          (arm_room u m room hub) (k.arms room hub p))
  ]

  sweep_rooms_kept :
      (grace_ms : ℕ) (rooms : List Room) (hub : Hub)
      → P hub
      → P (sweep_rooms u m grace_ms rooms hub)
  unfolding sweep_rooms
  sweep_rooms_kept grace_ms [] hub p = p
  sweep_rooms_kept grace_ms (room ∷ rooms) hub p =
      sweep_rooms_kept grace_ms rooms _ (sweep_room_kept grace_ms room hub p)

  pub sweep_kept : (grace_ms : ℕ) (hub : Hub) → P hub → P (sweep u m grace_ms hub)
  unfolding sweep
  sweep_kept grace_ms hub p = k.notes _ _ (sweep_rooms_kept grace_ms (list_rooms u hub.rooms) hub p)
