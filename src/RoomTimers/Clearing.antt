-- ===== src/RoomTimers/Clearing.antt =====
-- Running a timer, and the loops of clearRoom and close of RoomTimers.ts.
use dance_sync_back_end.Base.{
  ℕ, ◌≡◌, refl, true, ◌&&◌, Option, none, some, inl, inr, Option-cases, Bool-cases, List, [], ◌∷◌,
  any, Text, Dict, lookup, keys, includes, Distinct, AllIn, AllIn-remove, AllIn-self, remove-absent,
  includes-keys, nat_eq, if◌then◌else◌, arith, eq→path,
}
use dance_sync_back_end.Timeouts.{Timeout, Timeouts, find_timeout, drop_timeout, cancel, timer_at}
use dance_sync_back_end.Timeouts.Synced.{
  IsSynced, find_timeout-drop, cancel-IsSynced, timer_at-cancel,
}
use dance_sync_back_end.RoomTimers.{starts_with, fire, clear_all, clear_matching, drop_entry, close}

any-lookup :
    (k : Text) (h : ℕ) (entries : Dict ℕ)
    → lookup k entries ≡ some h
    → any (λ e. nat_eq e.1 h) entries ≡ true
any-lookup k h [] e = absurd (ground arith)
any-lookup k h ((j, i) ∷ entries) e = ground (arith, any-lookup k h entries)

module _ {ℓ} {A : Type ℓ} where
  pub find_timeout-handle :
      (h : ℕ) (ts : List (Timeout A)) (p : Timeout A) → find_timeout h ts ≡ some p → p.handle ≡ h
  find_timeout-handle h [] p e = absurd (ground arith)
  find_timeout-handle h (t ∷ ts) p e = ground (arith, find_timeout-handle h ts p)

  -- A timer in the Map is cleared by its key, as by its handle.
  drop_entry-cancel :
      (k : Text) (h : ℕ) (t : Timeouts A)
      → lookup k t.timers ≡ some h
      → drop_entry k h t ≡ cancel k t
  unfolding cancel
  drop_entry-cancel k h t e = rw e refl

  pub fire-cancel :
      (h : ℕ) (p : Timeout A) (t : Timeouts A)
      → IsSynced t
      → find_timeout h t.pending ≡ some p
      → fire h t ≡ (some p.task, cancel p.key t)
  unfolding fire cancel
  fire-cancel h p t s f = let e = s.known h p f in ground (arith, f, e)

  -- A timer that Node holds is the one of its key, so running it is running that one.
  unfoldable pub fire_at : Text → Timeouts A → Option A × Timeouts A
  fire_at k t = elim (timer_at t k) [ none ↦ (none, t) | some p ↦ fire p.handle t ]

  pub fire_at-cancel : (k : Text) (t : Timeouts A) → IsSynced t → (fire_at k t).1 ≡ cancel k t
  unfolding fire_at timer_at cancel
  fire_at-cancel k t s = elim (Option-cases (lookup k t.timers)) [
    | inl e ↦ ground (arith, e, remove-absent k t.timers e)
    | inr (h, e) ↦
        let (p, f, d, _) = s.kept k h e in
        ground (arith, e, f, d, find_timeout-handle h t.pending p, fire-cancel h p t s f)
  ]

  clear_matching-view :
      (prefix : Text) (entries : Dict ℕ) (t : Timeouts A) (k : Text)
      → IsSynced t
      → AllIn entries t.timers
      → Distinct (keys entries)
      → IsSynced (clear_matching prefix entries t)
        × (timer_at (clear_matching prefix entries t) k
            ≡ (if starts_with prefix k && includes (keys entries) k then none else timer_at t k))
  unfolding clear_matching cancel
  clear_matching-view prefix [] t k s a d = (s, ground arith)
  clear_matching-view prefix ((j, h) ∷ entries) t k s a d =
      elim (Bool-cases (starts_with prefix j)) [
        | inl hit ↦
            let (s', e) =
              clear_matching-view prefix entries (cancel j t) k (cancel-IsSynced j t s)
                (AllIn-remove j entries t.timers d.0 a.1) d.1 in
            rw (hit, drop_entry-cancel j h t a.0)
              (s', ground (arith, e, hit, timer_at-cancel j k t s, eq→path j k))
        | inr miss ↦
            let (s', e) = clear_matching-view prefix entries t k s a.1 d.1 in
            rw miss (s', ground (arith, e, eq→path j k))
      ]

  pub clear_matching-timers :
      (prefix : Text) (t : Timeouts A) (k : Text)
      → IsSynced t
      → IsSynced (clear_matching prefix t.timers t)
        × (timer_at (clear_matching prefix t.timers t) k
            ≡ (if starts_with prefix k then none else timer_at t k))
  unfolding timer_at
  clear_matching-timers prefix t k s =
      let (s', e) =
        clear_matching-view prefix t.timers t k s (AllIn-self t.timers s.distinct) s.distinct in
      (s', ground (arith, e, includes-keys k t.timers))

  find_timeout-clear_all :
      (h : ℕ) (entries : Dict ℕ) (ts : List (Timeout A))
      → find_timeout h (clear_all entries ts)
        ≡ (if any (λ e. nat_eq e.1 h) entries then none else find_timeout h ts)
  unfolding clear_all
  find_timeout-clear_all h [] ts = refl
  find_timeout-clear_all h ((k, i) ∷ entries) ts =
      ground (arith, find_timeout-clear_all h entries (drop_timeout i ts), find_timeout-drop i h ts)

  pub close-IsSynced : (t : Timeouts A) → IsSynced t → IsSynced (close t)
  unfolding close
  close-IsSynced t s = record {
    kept = λ k h e. absurd (ground arith);
    known = λ h p f. absurd (
        ground (
          arith,
          f,
          find_timeout-clear_all h t.timers t.pending,
          s.known h p,
          any-lookup p.key h t.timers,
        ));
    distinct = tt;
  }

  pub timer_at-close : (t : Timeouts A) (k : Text) → timer_at (close t) k ≡ none
  unfolding close timer_at
  timer_at-close t k = refl

  pub close-pending :
      (t : Timeouts A) (h : ℕ) → IsSynced t → find_timeout h (close t).pending ≡ none
  unfolding close
  close-pending t h s = elim (Option-cases (find_timeout h (close t).pending)) [
    | inl e ↦ e
    | inr (p, e) ↦ absurd (ground (arith, (close-IsSynced t s).known h p e))
  ]
