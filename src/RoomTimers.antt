-- ===== src/RoomTimers.antt =====
-- infrastructure/scheduling/RoomTimers.ts: the deadline timers of the rooms. `A` is what a timer does,
-- a callback in the source.
pub mod Keys
pub mod Clearing
pub mod Refinement
use dance_sync_back_end.Base.{
  ℕ, ◌+◌, Bool, true, false, not, ◌&&◌, Option, none, some, List, [], ◌∷◌, ◌++◌, nat_eq, Text, text,
  ◌==◌, Dict, lookup, has, insert, remove, keys, length, is_some, if◌then◌else◌,
}
use dance_sync_back_end.Identity.{Unicode}
use dance_sync_back_end.Timeouts.{
  Timeout, Timeouts, due_at, find_timeout, drop_timeout, clear_timeout, renew, cancel, timer_at,
}

pub data RoomTimerKind : Type 0 where
  song_challenge song_choose battle_end : RoomTimerKind

abbrev pub kind_text : RoomTimerKind → Text
kind_text song_challenge = text "song-challenge"
kind_text song_choose = text "song-choose"
kind_text battle_end = text "battle-end"

-- prefix.startsWith
abbrev pub starts_with : Text → Text → Bool
starts_with [] s = true
starts_with (c ∷ p) [] = false
starts_with (c ∷ p) (d ∷ s) = nat_eq c d && starts_with p s

-- whether `handle` is the one that the Map has
abbrev pub is_current : Option ℕ → ℕ → Bool
is_current none handle = false
is_current (some current) handle = nat_eq current handle

module _ {ℓ} {A : Type ℓ} where
  -- The callback of setTimeout, when Node runs the timer: what it does then, if it was pending.
  unfoldable pub fire : ℕ → Timeouts A → Option A × Timeouts A
  fire handle t = elim (find_timeout handle t.pending) [
    | none ↦ (none, t)
    | some p ↦ (
      some p.task,
      record t {
        timers =
            if is_current (lookup p.key t.timers) handle then remove p.key t.timers else t.timers;
        pending = drop_timeout handle t.pending;
      },
    )
  ]

  -- one round of the loops of clearRoom and close
  abbrev pub drop_entry : Text → ℕ → Timeouts A → Timeouts A
  drop_entry k handle t = record t {
    timers = remove k t.timers;
    pending = clear_timeout (some handle) t.pending;
  }

  unfoldable pub clear_matching : Text → Dict ℕ → Timeouts A → Timeouts A
  clear_matching prefix [] t = t
  clear_matching prefix ((k, handle) ∷ entries) t =
      clear_matching prefix entries (if starts_with prefix k then drop_entry k handle t else t)

  clear_all : Dict ℕ → List (Timeout A) → List (Timeout A)
  clear_all [] pending = pending
  clear_all ((k, handle) ∷ entries) pending = clear_all entries (drop_timeout handle pending)

  unfoldable pub close : Timeouts A → Timeouts A
  unfolding clear_all
  close t = record t { timers = []; pending = clear_all t.timers t.pending }

abbrev pub count_keys : Text → List Text → ℕ
count_keys prefix [] = 0
count_keys prefix (k ∷ ks) =
    let rest = count_keys prefix ks in if starts_with prefix k then rest + 1 else rest

module _ (u : Unicode) where
  abbrev pub room_prefix : Text → Text
  room_prefix room_code = u.to_upper_case room_code ++ text "|"

  abbrev pub timer_key : Text → RoomTimerKind → Text
  timer_key room_code kind = room_prefix room_code ++ kind_text kind

  module _ {ℓ} {A : Type ℓ} where
    unfoldable pub set : Text → RoomTimerKind → ℕ → A → ℕ → Timeouts A → Timeouts A
    set room_code kind at task now t = renew (timer_key room_code kind) (due_at at now) task t

    unfoldable pub clear : Text → RoomTimerKind → Timeouts A → Timeouts A
    clear room_code kind t = cancel (timer_key room_code kind) t

    unfoldable pub clear_room : Text → Timeouts A → Timeouts A
    unfolding clear_matching
    clear_room room_code t = clear_matching (room_prefix room_code) t.timers t

    unfoldable pub pending : Option Text → Timeouts A → ℕ
    pending none t = length t.timers
    pending (some room_code) t = count_keys (room_prefix room_code) (keys t.timers)

    unfoldable pub has_timer : Text → RoomTimerKind → Timeouts A → Bool
    has_timer room_code kind t = has (timer_key room_code kind) t.timers
