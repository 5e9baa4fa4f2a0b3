-- ===== src/Timeouts/Synced.antt =====
-- The Map of handles and the timers of Node under the operations of Timeouts.
use dance_sync_back_end.Base.{
  ℕ, ◌<◌, ◌≡◌, ◌≢◌, inl, inr, none, some, Option-cases, Bool-cases, List, [], ◌∷◌, nat_eq, Text,
  ◌==◌, eq_refl, eq→path, lookup, lookup-insert, lookup-remove, keys, Distinct, Distinct-insert,
  Distinct-remove, if◌then◌else◌, arith, text_discrete, ◌∙◌,
}
use dance_sync_back_end.Timeouts.{
  Timeout, Timeouts, find_timeout, drop_timeout, clear_timeout, renew, cancel, timer_at,
}

module _ {ℓ} {A : Type ℓ} where
  pub find_timeout-drop :
      (i j : ℕ) (ts : List (Timeout A))
      → find_timeout j (drop_timeout i ts) ≡ (if nat_eq i j then none else find_timeout j ts)
  find_timeout-drop i j [] = ground arith
  find_timeout-drop i j (t ∷ ts) = ground (arith, find_timeout-drop i j ts)

  -- Each key has one pending timer at most, and each pending timer is the one of its key.
  pub record IsSynced (t : Timeouts A) : Type ℓ where
    pub kept :
        (k : Text) (h : ℕ)
        → lookup k t.timers ≡ some h
        → (p : Timeout A) × (find_timeout h t.pending ≡ some p) × (p.key ≡ k) × (h < t.next_handle)
    pub known :
        (h : ℕ) (p : Timeout A) → find_timeout h t.pending ≡ some p → lookup p.key t.timers ≡ some h
    pub distinct : Distinct (keys t.timers)

  -- Two keys with one handle are one key.
  kept_unique :
      (t : Timeouts A) (s : IsSynced t) (j k : Text) (h : ℕ)
      → lookup j t.timers ≡ some h
      → lookup k t.timers ≡ some h
      → j ≡ k
  kept_unique t s j k h a b =
      let (p, f, e, _) = s.kept j h a in
      let (q, g, d, _) = s.kept k h b in ground (arith, f, g, e, d)

  -- What is pending after the timer of `k` was cleared: the timers of the other keys.
  find_timeout-clear :
      (t : Timeouts A) (k : Text) (h : ℕ) (p : Timeout A)
      → IsSynced t
      → find_timeout h (clear_timeout (lookup k t.timers) t.pending) ≡ some p
      → (find_timeout h t.pending ≡ some p) × (k ≢ p.key)
  find_timeout-clear t k h p s = elim (Option-cases (lookup k t.timers)) [
    | inl e ↦ rw e λ f. (f, λ same. cc (e, s.known h p f))
    | inr (i, e) ↦ rw e λ f.
        let kept = find_timeout-drop i h t.pending in
        (ground (arith, f, kept), λ same. ground (arith, f, kept, s.known h p, e, same))
  ]

  clear-find_timeout :
      (t : Timeouts A) (k : Text) (h : ℕ) (p : Timeout A)
      → IsSynced t
      → find_timeout h t.pending ≡ some p
      → k ≢ p.key
      → find_timeout h (clear_timeout (lookup k t.timers) t.pending) ≡ some p
  clear-find_timeout t k h p s f ne = elim (Option-cases (lookup k t.timers)) [
    | inl e ↦ rw e f
    | inr (i, e) ↦ rw e (
        let other : i ≢ h =
          λ same. ne (kept_unique t s k p.key h (ground (arith, e, same)) (s.known h p f)) in
        ground (arith, find_timeout-drop i h t.pending, f, other))
  ]

  pub cancel-IsSynced : (k : Text) (t : Timeouts A) → IsSynced t → IsSynced (cancel k t)
  unfolding cancel
  cancel-IsSynced k t s = record {
    kept = λ j h e.
        let (p, f, d, lt) = s.kept j h (ground (arith, lookup-remove k j t.timers, e)) in
        let other : k ≢ p.key =
          λ same. ground (arith, lookup-remove k j t.timers, e, d, same, eq_refl k) in
        (p, clear-find_timeout t k h p s f other, d, lt);
    known = λ h p f.
        let (g, other) = find_timeout-clear t k h p s f in
        ground (arith, s.known h p g, lookup-remove k p.key t.timers, eq→path k p.key, other);
    distinct = Distinct-remove k t.timers s.distinct;
  }

  pub renew-IsSynced :
      (k : Text) (due : ℕ) (task : A) (t : Timeouts A) → IsSynced t → IsSynced (renew k due task t)
  unfolding renew
  renew-IsSynced k due task t s = record {
    kept = λ j h e. elim (text_discrete k j) [
      | yes same ↦ (
        record { handle = t.next_handle; key = k; due = due; task = task },
        ground (arith, e, lookup-insert k j t.next_handle t.timers, same, eq_refl k),
        same,
        ground (arith, e, lookup-insert k j t.next_handle t.timers, same, eq_refl k),
      )
      | no other ↦
          let (p, f, d, lt) =
            s.kept j h (ground (arith, e, lookup-insert k j t.next_handle t.timers)) in
          let ne : k ≢ p.key = λ x. other (x ∙ d) in
          (p, ground (arith, clear-find_timeout t k h p s f ne, lt), d, omega (arith, lt))
    ];
    known = λ h p. elim (Bool-cases (nat_eq t.next_handle h)) [
      | inl new ↦
          rw new
            λ f. ground (arith, f, new, lookup-insert k p.key t.next_handle t.timers, eq_refl k)
      | inr old ↦ rw old λ f.
          let (g, other) = find_timeout-clear t k h p s f in
          ground (
            arith,
            s.known h p g,
            lookup-insert k p.key t.next_handle t.timers,
            eq→path k p.key,
            other,
          )
    ];
    distinct = Distinct-insert k t.next_handle t.timers s.distinct;
  }

  pub timer_at-cancel :
      (k j : Text) (t : Timeouts A)
      → IsSynced t
      → timer_at (cancel k t) j ≡ (if k == j then none else timer_at t j)
  unfolding timer_at cancel
  timer_at-cancel k j t s = elim (text_discrete k j) [
    | yes same ↦ ground (arith, lookup-remove k j t.timers)
    | no other ↦ elim (Option-cases (lookup j t.timers)) [
      | inl e ↦ ground (arith, lookup-remove k j t.timers)
      | inr (h, e) ↦
          let (p, f, d, _) = s.kept j h e in
          let ne : k ≢ p.key = λ x. other (x ∙ d) in
          ground (arith, lookup-remove k j t.timers, f, clear-find_timeout t k h p s f ne)
    ]
  ]

  pub timer_at-renew :
      (k j : Text) (due : ℕ) (task : A) (t : Timeouts A)
      → IsSynced t
      → timer_at (renew k due task t) j ≡ (
          if k == j
          then some (record { handle = t.next_handle; key = k; due = due; task = task })
          else timer_at t j)
  unfolding timer_at renew
  timer_at-renew k j due task t s = elim (text_discrete k j) [
    | yes same ↦ ground (arith, lookup-insert k j t.next_handle t.timers)
    | no other ↦ elim (Option-cases (lookup j t.timers)) [
      | inl e ↦ ground (arith, lookup-insert k j t.next_handle t.timers)
      | inr (h, e) ↦
          let (p, f, d, lt) = s.kept j h e in
          let ne : k ≢ p.key = λ x. other (x ∙ d) in
          ground (
            arith,
            lookup-insert k j t.next_handle t.timers,
            f,
            lt,
            clear-find_timeout t k h p s f ne,
          )
    ]
  ]
