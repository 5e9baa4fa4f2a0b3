-- ===== src/Server/Requests.antt =====
-- The deadlines of socketHandlers.ts and the routes of routes.ts, as operations of the components.
use dance_sync_back_end.Base.{
  ℕ, List, Option, none, some, inl, inr, Bool, true, false, Bool-cases, Option-cases, Text,
}
use dance_sync_back_end.Errors.{Result, ok, err}
use dance_sync_back_end.Model.{Room, Wire}
use dance_sync_back_end.Identity.{Unicode}
use dance_sync_back_end.RoomService.{has_player}
use dance_sync_back_end.RoomRepository.{Rooms, find_by_code}
use dance_sync_back_end.UseCases.{create_room}
use dance_sync_back_end.UseCases.Commands.{
  finish_battle_at_deadline, auto_pick_song, expire_song_challenge,
}
use dance_sync_back_end.UseCases.Requests
use dance_sync_back_end.UseCases.Requests.{serve, serve_all}
use dance_sync_back_end.RoomTimers.{fire}
use dance_sync_back_end.SocketHandlers.Arming.{
  Deadline, expires_challenge, auto_picks, finishes_battle,
}
use dance_sync_back_end.SocketHandlers.Hub.{Hub, Moment, leave_seat}
use dance_sync_back_end.SocketHandlers.Deadlines.{
  finished_at_deadline, challenge_expired, auto_picked, run_deadline, deadline_runs,
}
use dance_sync_back_end.HttpRoutes.{
  LeaveReason, explicit, pagehide, created, post_room, left_answer, leave_for, leave_request,
  leave_as, post_leave, ParsesJson, LeaveBody,
}
use dance_sync_back_end.Server.Kept.{IsKept}
use dance_sync_back_end.Server.Releases.{
  publish_room_kept, battle_started_kept, battle_finished_kept, leave_seat_kept,
}

module _ {ℓ} (u : Unicode) (m : Moment) (P : Hub → Type ℓ) (k : IsKept u m P) where
  finished_kept :
      (r : Result (Option Room × Bool)) (hub : Hub) → P hub → P (finished_at_deadline u m r hub)
  unfolding finished_at_deadline
  finished_kept (err e) hub p = p
  finished_kept (ok (none, b)) hub p = p
  finished_kept (ok (some room, true)) hub p = battle_finished_kept u m P k room hub p
  finished_kept (ok (some room, false)) hub p = k.arms room hub p

  picked_kept :
      (r : Result (Option Room × (Bool × Bool))) (hub : Hub) → P hub → P (auto_picked u m r hub)
  unfolding auto_picked
  picked_kept (err e) hub p = p
  picked_kept (ok (none, b)) hub p = p
  picked_kept (ok (some room, (false, started))) hub p = k.arms room hub p
  picked_kept (ok (some room, (true, true))) hub p = battle_started_kept u m P k room hub p
  picked_kept (ok (some room, (true, false))) hub p = publish_room_kept u m P k room hub p

  challenge_kept : (r : Result (Option Room)) (hub : Hub) → P hub → P (challenge_expired u m r hub)
  unfolding challenge_expired
  challenge_kept (err e) hub p = p
  challenge_kept (ok none) hub p = p
  challenge_kept (ok (some room)) hub p = publish_room_kept u m P k room hub p

  run_deadline_kept : (task : Deadline) (hub : Hub) → P hub → P (run_deadline u m task hub)
  unfolding run_deadline serve
  run_deadline_kept (finishes_battle code battle_id) hub p =
      let (r, rooms) = finish_battle_at_deadline u code battle_id m.now hub.rooms in
      finished_kept r _ (k.serves (Requests.song_ends code battle_id m.now) hub p)
  run_deadline_kept (auto_picks code challenge_id) hub p =
      let (r, rooms) = auto_pick_song u code challenge_id m.random m.start hub.rooms in
      picked_kept r _ (k.serves (Requests.choice_expires code challenge_id m.start) hub p)
  run_deadline_kept (expires_challenge code challenge_id) hub p =
      let (r, rooms) = expire_song_challenge u code challenge_id m.random m.now hub.rooms in
      challenge_kept r _ (k.serves (Requests.challenge_expires code challenge_id m.now) hub p)

  pub deadline_runs_kept : (handle : ℕ) (hub : Hub) → P hub → P (deadline_runs u m handle hub)
  unfolding deadline_runs
  deadline_runs_kept handle hub p = elim (Option-cases (fire handle hub.arming.room_timers).0) [
    | inl e ↦ rw (e, deadline_runs) (k.fires handle hub p)
    | inr (task, e) ↦ rw (e, deadline_runs) (run_deadline_kept task _ (k.fires handle hub p))
  ]

  created_kept :
      (grace_ms : ℕ) (r : Result Room) (rooms : Rooms) (hub : Hub)
      → P (record hub { rooms = rooms })
      → P (created u m grace_ms (r, rooms) hub).1
  unfolding created
  created_kept grace_ms (err e) rooms hub p = p
  created_kept grace_ms (ok room) rooms hub p = k.watches room.code room.host_id grace_ms _ p

  pub post_room_kept :
      (grace_ms : ℕ) (id name : Wire) (codes : List Text) (hub : Hub)
      → P hub
      → P (post_room u m grace_ms id name codes hub).1
  unfolding post_room serve
  post_room_kept grace_ms id name codes hub p =
      let (r, rooms) = create_room u id name m.now codes hub.rooms in
      created_kept grace_ms r rooms hub (k.serves (Requests.creates id name m.now codes) hub p)

  left_answer_kept {κ} :
      {B : Type κ} (r : Result B) (hub : Hub) → P hub → P (left_answer u m (r, hub)).1
  left_answer_kept (ok left) hub p = p
  left_answer_kept (err e) hub p = p

  leave_for_kept :
      (grace_ms : ℕ) (code id : Text) (reason : LeaveReason) (hub : Hub)
      → P hub
      → P (leave_for u m grace_ms code id reason hub).1
  unfolding leave_for
  leave_for_kept grace_ms code id explicit hub p =
      let (r, after) = leave_seat u m code id hub in
      left_answer_kept r after (leave_seat_kept u m P k code id hub p)
  leave_for_kept grace_ms code id pagehide hub p =
      elim (Option-cases (find_by_code u code hub.rooms)) [
        | inl e ↦ rw (e, leave_for) p
        | inr (room, e) ↦ elim (Bool-cases (has_player room.players id)) [
          | inl there ↦ rw (e, there, leave_for) (k.schedules code id grace_ms hub p)
          | inr absent ↦ rw (e, absent, leave_for) p
        ]
      ]

  leave_as_kept :
      (grace_ms : ℕ) (r : Result (Text × (Text × LeaveReason))) (hub : Hub)
      → P hub
      → P (leave_as u m grace_ms r hub).1
  unfolding leave_as
  leave_as_kept grace_ms (err e) hub p = p
  leave_as_kept grace_ms (ok (code, (id, reason))) hub p =
      leave_for_kept grace_ms code id reason hub p

  pub post_leave_kept :
      (grace_ms : ℕ) (parse : ParsesJson) (code : Text) (body : LeaveBody) (hub : Hub)
      → P hub
      → P (post_leave u m parse grace_ms code body hub).1
  unfolding post_leave
  post_leave_kept grace_ms parse code body hub p =
      leave_as_kept grace_ms (leave_request u m parse code body) hub p
