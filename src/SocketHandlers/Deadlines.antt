-- ===== src/SocketHandlers/Deadlines.antt =====
-- What the deadline timers of socketHandlers.ts do: finishBattleAtDeadline, autoPickSong and
-- expireSongChallenge.
pub mod Pending
pub mod Settled
use dance_sync_back_end.Base.{ℕ, Bool, true, false, Option, none, some, Text, if◌then◌else◌}
use dance_sync_back_end.Errors.{Result, ok, err}
use dance_sync_back_end.Model.{Room}
use dance_sync_back_end.Identity.{Unicode}
use dance_sync_back_end.UseCases.Commands.{
  finish_battle_at_deadline, auto_pick_song, expire_song_challenge,
}
use dance_sync_back_end.RoomTimers.{fire}
use dance_sync_back_end.SocketHandlers.Arming.{
  Arming, Deadline, expires_challenge, auto_picks, finishes_battle,
}
use dance_sync_back_end.SocketHandlers.Hub.{
  Hub, Moment, publish_room, announce_battle_started, announce_battle_finished, arm_room,
}

module _ (u : Unicode) (m : Moment) where
  -- Errors are logged by the timer.
  unfoldable pub finished_at_deadline : Result (Option Room × Bool) → Hub → Hub
  finished_at_deadline (err e) hub = hub
  finished_at_deadline (ok (none, finished)) hub = hub
  finished_at_deadline (ok (some room, true)) hub = announce_battle_finished u m room hub
  finished_at_deadline (ok (some room, false)) hub = arm_room u m room hub

  unfoldable pub auto_picked : Result (Option Room × (Bool × Bool)) → Hub → Hub
  auto_picked (err e) hub = hub
  auto_picked (ok (none, _)) hub = hub
  auto_picked (ok (some room, (false, started))) hub = arm_room u m room hub
  auto_picked (ok (some room, (true, true))) hub = announce_battle_started u m room hub
  auto_picked (ok (some room, (true, false))) hub = publish_room u m room hub

  unfoldable pub challenge_expired : Result (Option Room) → Hub → Hub
  challenge_expired (err e) hub = hub
  challenge_expired (ok none) hub = hub
  challenge_expired (ok (some room)) hub = publish_room u m room hub

  unfoldable pub run_deadline : Deadline → Hub → Hub
  unfolding finished_at_deadline auto_picked challenge_expired
  run_deadline (finishes_battle code battle_id) hub =
      let (r, rooms) = finish_battle_at_deadline u code battle_id m.now hub.rooms in
      finished_at_deadline r (record hub { rooms = rooms })
  run_deadline (auto_picks code challenge_id) hub =
      let (r, rooms) = auto_pick_song u code challenge_id m.random m.start hub.rooms in
      auto_picked r (record hub { rooms = rooms })
  run_deadline (expires_challenge code challenge_id) hub =
      let (r, rooms) = expire_song_challenge u code challenge_id m.random m.now hub.rooms in
      challenge_expired r (record hub { rooms = rooms })

  -- Node runs the timer with this handle.
  unfoldable pub deadline_runs : ℕ → Hub → Hub
  unfolding run_deadline
  deadline_runs handle hub =
      let (task, timers) = fire handle hub.arming.room_timers in
      let fired = record hub { arming = record hub.arming { room_timers = timers } } in
      elim task [ none ↦ fired | some deadline ↦ run_deadline deadline fired ]
