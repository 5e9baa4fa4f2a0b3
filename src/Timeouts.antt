-- ===== src/Timeouts.antt =====
-- The timers of Node that a class of the source owns: setTimeout and clearTimeout, with the Map from
-- keys to handles that it keeps beside them. A handle is the number of the call that made it.
pub mod Synced
use dance_sync_back_end.Base.{
  ℕ, ◌+◌, ◌-◌, Bool, not, Option, none, some, List, [], ◌∷◌, filter, find, nat_eq, Text, Dict,
  lookup, insert, remove,
}

-- A call of setTimeout whose callback has not run: the key that the callback captures, the moment at
-- which it is due, and what it does.
pub record Timeout {ℓ} (A : Type ℓ) : Type ℓ where
  pub handle : ℕ
  pub key : Text
  pub due : ℕ
  pub task : A

pub record Timeouts {ℓ} (A : Type ℓ) : Type ℓ where
  pub timers : Dict ℕ
  pub pending : List (Timeout A)
  pub next_handle : ℕ

-- Math.max(0, at - now), from now on
abbrev pub due_at : ℕ → ℕ → ℕ
due_at at now = now + (at - now)

module _ {ℓ} {A : Type ℓ} where
  abbrev pub find_timeout : ℕ → List (Timeout A) → Option (Timeout A)
  find_timeout handle = find (λ (t : Timeout A). nat_eq t.handle handle)

  abbrev pub drop_timeout : ℕ → List (Timeout A) → List (Timeout A)
  drop_timeout handle = filter (λ (t : Timeout A). not (nat_eq t.handle handle))

  -- clearTimeout(handle), where `none` is undefined
  abbrev pub clear_timeout : Option ℕ → List (Timeout A) → List (Timeout A)
  clear_timeout none pending = pending
  clear_timeout (some handle) pending = drop_timeout handle pending

  -- A new timer under the key, in place of the one that it has.
  unfoldable pub renew : Text → ℕ → A → Timeouts A → Timeouts A
  renew k due task t = record {
    timers = insert k t.next_handle t.timers;
    pending =
        record { handle = t.next_handle; key = k; due = due; task = task }
        ∷ clear_timeout (lookup k t.timers) t.pending;
    next_handle = t.next_handle + 1;
  }

  -- The timer under the key is cleared, and forgotten.
  unfoldable pub cancel : Text → Timeouts A → Timeouts A
  cancel k t = record t {
    timers = remove k t.timers;
    pending = clear_timeout (lookup k t.timers) t.pending;
  }

  -- The timer that the key has, if it has one.
  unfoldable pub timer_at : Timeouts A → Text → Option (Timeout A)
  timer_at t k = elim (lookup k t.timers) [
    | none ↦ none
    | some handle ↦ find_timeout handle t.pending
  ]

  abbrev pub no_timeouts : Timeouts A
  no_timeouts = record { timers = []; pending = []; next_handle = 0 }
