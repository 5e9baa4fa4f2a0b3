-- ===== src/SocketHandlers/Arming.antt =====
-- `armRoomTimers` of socketHandlers.ts. A timer does what its callback calls: a command on the room for
-- the challenge or battle that the callback captures.
pub mod Follows
pub mod Newest
use dance_sync_back_end.Base.{
  ℕ, Bool, true, false, ◌&&◌, Option, none, some, List, [], ◌∷◌, Text, Dict, lookup, insert, ltb,
  if◌then◌else◌,
}
use dance_sync_back_end.Model.{Room, is_waiting, is_battling, is_typing, is_choosing}
use dance_sync_back_end.Identity.{Unicode}
use dance_sync_back_end.Timeouts.{Timeouts}
use dance_sync_back_end.RoomTimers.{
  RoomTimerKind, song_challenge, song_choose, battle_end, set, clear,
}

pub data Deadline : Type 0 where
  expires_challenge auto_picks finishes_battle : Text → Text → Deadline

-- The deadline that a state of the room has for a kind, if one is pending.
abbrev pub challenge_deadline : Room → Option (ℕ × Deadline)
challenge_deadline room = elim room.song_selection [
  | none ↦ none
  | some selection ↦
      if is_waiting room.status && is_typing selection.phase
      then some (selection.challenge.expires_at, expires_challenge room.code selection.challenge.id)
      else none
]

abbrev pub choice_deadline : Room → Option (ℕ × Deadline)
choice_deadline room = elim room.song_selection [
  | none ↦ none
  | some selection ↦ elim selection.choose_deadline [
    | none ↦ none
    | some deadline ↦
        if is_waiting room.status && is_choosing selection.phase
        then some (deadline, auto_picks room.code selection.challenge.id)
        else none
  ]
]

abbrev pub battle_deadline : Room → Option (ℕ × Deadline)
battle_deadline room = elim room.battle [
  | none ↦ none
  | some battle ↦
      if is_battling room.status
      then some (battle.ends_at, finishes_battle room.code battle.id)
      else none
]

-- room.version < (armedVersions.get(key) ?? -1)
abbrev pub is_older : ℕ → Option ℕ → Bool
is_older version none = false
is_older version (some armed) = ltb version armed

pub record Arming : Type 0 where
  pub room_timers : Timeouts Deadline
  pub armed_versions : Dict ℕ

module _ (u : Unicode) where
  unfoldable pub set_or_clear :
      Text → RoomTimerKind → Option (ℕ × Deadline) → ℕ → Timeouts Deadline → Timeouts Deadline
  set_or_clear code kind none now t = clear u code kind t
  set_or_clear code kind (some (at, task)) now t = set u code kind at task now t

  unfoldable pub arm_room_timers : Room → ℕ → Arming → Arming
  unfolding set_or_clear
  arm_room_timers room now a =
      let key = u.to_upper_case room.code in
      if is_older room.version (lookup key a.armed_versions) then a else record {
        room_timers = set_or_clear room.code battle_end (battle_deadline room) now (
            set_or_clear room.code song_choose (choice_deadline room) now
              (set_or_clear room.code song_challenge (challenge_deadline room) now a.room_timers));
        armed_versions = insert key room.version a.armed_versions;
      }

  -- States of rooms that are published one after the other, each at a time.
  unfoldable pub arm_all : List (Room × ℕ) → Arming → Arming
  unfolding arm_room_timers
  arm_all [] a = a
  arm_all ((room, now) ∷ published) a = arm_all published (arm_room_timers room now a)
