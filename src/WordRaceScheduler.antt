-- ===== src/WordRaceScheduler.antt =====
-- infrastructure/scheduling/WordRaceScheduler.ts: the timers that open and expire the rounds of a race.
-- A Set of timers is the number that it got when it was made; its members are the pending timers with
-- that number.
use dance_sync_back_end.Base.{
  ℕ, ◌+◌, Bool, not, Option, none, some, List, [], ◌∷◌, filter, find, length, nat_eq, Text, Dict,
  lookup, insert, remove, if◌then◌else◌,
}
use dance_sync_back_end.Errors.{Result, ok, err}
use dance_sync_back_end.Model.{WordRace, WordRound, is_opened}
use dance_sync_back_end.Identity.{Unicode}
use dance_sync_back_end.Timeouts.{due_at}
use dance_sync_back_end.WordRaceService.{PlanWordRaceOptions}
use dance_sync_back_end.RoomRepository.{Rooms}
use dance_sync_back_end.WordRaceRepository.{Races}
use dance_sync_back_end.UseCases.WordRaces.{
  OpenWordRoundOutput, round_opened, battle_over, not_scheduled, ExpireWordRoundOutput,
  round_expired, not_expired, start_word_race, open_word_round, expire_word_round, stop_word_race,
}
use dance_sync_back_end.WordRaceMessages.{
  WordRoundStartedPayload, WordRoundEndedPayload, round_started_payload, round_ended_payload,
}

pub data RaceTask : Type 0 where
  opens expires : Text → Text → RaceTask

pub record RaceTimer : Type 0 where
  pub handle : ℕ
  pub set : ℕ
  pub due : ℕ
  pub task : RaceTask

pub record Scheduler : Type 0 where
  pub timers : Dict ℕ
  pub pending : List RaceTimer
  pub next_number : ℕ

-- What the broadcaster is told.
pub data RaceBroadcast : Type 0 where
  round_started : WordRoundStartedPayload → RaceBroadcast
  round_ended : WordRoundEndedPayload → RaceBroadcast

abbrev pub in_set : ℕ → RaceTimer → Bool
in_set set t = nat_eq t.set set

-- The sizes of the sets of the Map.
abbrev pub sizes : List RaceTimer → Dict ℕ → ℕ
sizes pending [] = 0
sizes pending ((k, set) ∷ sets) = length (filter (in_set set) pending) + sizes pending sets

-- A broadcast or none, with the races and the timers after it.
abbrev pub Outcome : Type 0
Outcome = Option RaceBroadcast × (Races × Scheduler)

module _ (u : Unicode) where
  unfoldable pub schedule : Text → ℕ → RaceTask → ℕ → Scheduler → Scheduler
  schedule room_code at task now s = elim (lookup (u.to_upper_case room_code) s.timers) [
    | none ↦ s
    | some set ↦ record s {
      pending =
          record { handle = s.next_number; set = set; due = due_at at now; task = task }
          ∷ s.pending;
      next_number = s.next_number + 1;
    }
  ]

  unfoldable pub clear_timers : Text → Scheduler → Scheduler
  clear_timers room_code s =
      let key = u.to_upper_case room_code in
      record s {
        timers = remove key s.timers;
        pending = elim (lookup key s.timers) [
          | none ↦ s.pending
          | some set ↦ filter (λ t. not (in_set set t)) s.pending
        ];
      }

  schedule_rounds : Text → List WordRound → ℕ → Scheduler → Scheduler
  schedule_rounds room_code [] now s = s
  schedule_rounds room_code (round ∷ rounds) now s =
      schedule_rounds room_code rounds now
        (schedule room_code round.opens_at (opens room_code round.id) now s)

  -- this.timers.set(key, new Set()), and a timer for each opening
  unfoldable pub schedule_race : WordRace → ℕ → Scheduler → Scheduler
  unfolding schedule_rounds schedule
  schedule_race race now s = schedule_rounds race.room_code race.rounds now (record s {
    timers = insert (u.to_upper_case race.room_code) s.next_number s.timers;
    next_number = s.next_number + 1;
  })

  started : ℕ → Result WordRace × Races → Scheduler → Result WordRace × (Races × Scheduler)
  started now (err e, races) s = (err e, (races, s))
  started now (ok race, races) s = (ok race, (races, schedule_race race now s))

  unfoldable pub start :
      Text
      → PlanWordRaceOptions
      → ℕ
      → Rooms
      → Races
      → Scheduler
      → Result WordRace × (Races × Scheduler)
  unfolding clear_timers started
  start room_code o now rooms races s =
      started now (start_word_race u room_code o rooms races) (clear_timers room_code s)

  unfoldable pub stop : Text → Races → Scheduler → Races × Scheduler
  unfolding clear_timers
  stop room_code races s = (stop_word_race u room_code races, clear_timers room_code s)

  unfoldable pub pending_timers : Option Text → Scheduler → ℕ
  pending_timers none s = sizes s.pending s.timers
  pending_timers (some room_code) s = elim (lookup (u.to_upper_case room_code) s.timers) [
    | none ↦ 0
    | some set ↦ length (filter (in_set set) s.pending)
  ]

  -- After openWordRound.
  unfoldable pub after_open : Text → Text → ℕ → OpenWordRoundOutput × Races → Scheduler → Outcome
  unfolding stop schedule
  after_open room_code round_id now (round_opened round race, races) s = (
    some (round_started (round_started_payload race round now)),
    (races, schedule room_code round.closes_at (expires room_code round_id) now s),
  )
  after_open room_code round_id now (battle_over, races) s = (none, stop room_code races s)
  after_open room_code round_id now (not_scheduled, races) s = (none, (races, s))

  -- After expireWordRound: a timer that fired a moment early tries again.
  unfoldable pub after_expire :
      Text → Text → ℕ → ExpireWordRoundOutput × Races → Scheduler → Outcome
  unfolding schedule
  after_expire room_code round_id now (round_expired round race, races) s =
      (some (round_ended (round_ended_payload race round 0)), (races, s))
  after_expire room_code round_id now (not_expired none, races) s = (none, (races, s))
  after_expire room_code round_id now (not_expired (some round), races) s = (
    none,
    (
      races,
      if is_opened round.status
          then schedule room_code round.closes_at (expires room_code round_id) now s
          else s,
    ),
  )

  unfoldable pub run_task : RaceTask → ℕ → Rooms → Races → Scheduler → Outcome
  unfolding after_open after_expire
  run_task (opens room_code round_id) now rooms races s =
      after_open room_code round_id now (open_word_round u room_code round_id rooms races races) s
  run_task (expires room_code round_id) now rooms races s =
      after_expire room_code round_id now
        (expire_word_round u room_code round_id now races (λ r. r)) s

  -- The callback of setTimeout.
  unfoldable pub timer_runs : ℕ → ℕ → Rooms → Races → Scheduler → Outcome
  unfolding run_task
  timer_runs handle now rooms races s =
      elim (find (λ (t : RaceTimer). nat_eq t.handle handle) s.pending) [
        | none ↦ (none, (races, s))
        | some t ↦ run_task t.task now rooms races (record s {
          pending = filter (λ (p : RaceTimer). not (nat_eq p.handle handle)) s.pending;
        })
      ]
