-- ===== src/WordRaceService/Words.antt =====
-- The words of a race: `pickDistinct`.
use dance_sync_back_end.Base.{
  ℕ, zero, suc, ◌+◌, ◌<◌, ◌≡◌, refl, true, false, ◌||◌, some, List, [], ◌∷◌, arith, length, All,
  All-imp, Text, ◌==◌, includes, Distinct,
}
use dance_sync_back_end.Errors.{ok}
use dance_sync_back_end.WordRaceService.{Draws, skip, min, splice, pick_distinct}
use dance_sync_back_end.WordRaceService.Offsets.{InRange}

-- `w` was taken out of `ws`, and `rest` is what is left.
pub record IsTaken (ws : List Text) (w : Text) (rest : List Text) : Type 0 where
  pub shorter : length ws ≡ length rest + 1
  pub entries : (x : Text) → includes ws x ≡ ((w == x) || includes rest x)
  pub distinct : Distinct ws → (includes rest w ≡ false) × Distinct rest

IsTaken-later :
    (v : Text) (ws : List Text) (w : Text) (rest : List Text)
    → IsTaken ws w rest
    → IsTaken (v ∷ ws) w (v ∷ rest)
IsTaken-later v ws w rest h = record {
  shorter = omega (arith, h.shorter);
  entries = λ x. ground (arith, h.entries x);
  distinct = λ d. ground (arith, h.distinct d.1, h.entries v, d.0);
}

splice-IsTaken :
    (ws : List Text) (i : ℕ)
    → i < length ws
    → (w : Text) × (rest : List Text) × (splice ws i ≡ some (w, rest)) × IsTaken ws w rest
unfolding splice
splice-IsTaken [] i h = absurd (omega arith)
splice-IsTaken (v ∷ ws) zero h =
    (v, ws, refl, record { shorter = omega arith; entries = λ x. refl; distinct = λ d. d })
splice-IsTaken (v ∷ ws) (suc i) h =
    let (w, rest, e, t) = splice-IsTaken ws i (omega arith) in
    (w, v ∷ rest, ground (arith, e), IsTaken-later v ws w rest t)

-- Distinct words of the pool, as many as asked for or all of them.
pub record IsPick (pool : List Text) (count : ℕ) (picked : List Text) : Type 0 where
  pub of_pool : All (λ w. includes pool w ≡ true) picked
  pub distinct : Distinct pool → Distinct picked
  pub many : length picked ≡ min count (length pool)

not_among :
    (rest : List Text) (w : Text) (more : List Text)
    → All (λ x. includes rest x ≡ true) more
    → includes rest w ≡ false
    → includes more w ≡ false
not_among rest w [] h e = refl
not_among rest w (x ∷ more) h e = ground (arith, h.0, not_among rest w more h.1 e)

IsPick-one :
    (pool : List Text) (count : ℕ) (w : Text) (rest more : List Text)
    → IsTaken pool w rest
    → IsPick rest count more
    → IsPick pool (suc count) (w ∷ more)
IsPick-one pool count w rest more t h = record {
  of_pool = (
    ground (arith, t.entries w),
    All-imp (λ x. includes rest x ≡ true) (λ x. includes pool x ≡ true)
        (λ x e. ground (arith, t.entries x)) more h.of_pool,
  );
  distinct = λ d. (not_among rest w more h.of_pool (t.distinct d).0, h.distinct (t.distinct d).1);
  many = ground (arith, t.shorter, h.many);
}

pick_step :
    (v : Text) (ws : List Text) (count : ℕ) (draws : Draws) (w : Text) (rest more : List Text)
    → splice (v ∷ ws) (draws 0 (length (v ∷ ws))) ≡ some (w, rest)
    → pick_distinct rest count (skip 1 draws) ≡ ok more
    → pick_distinct (v ∷ ws) (suc count) draws ≡ ok (w ∷ more)
unfolding pick_distinct
pick_step v ws count draws w rest more e m = ground (arith, e, m)

-- When every draw is in range, the words are picked without a failure: they are words of the pool,
-- distinct if those of the pool are, and as many as asked for unless the pool is smaller.
pub pick_distinct-IsPick :
    (pool : List Text) (count : ℕ) (draws : Draws)
    → InRange draws
    → (picked : List Text) × (pick_distinct pool count draws ≡ ok picked) × IsPick pool count picked
unfolding pick_distinct
pick_distinct-IsPick pool zero draws h =
    ([], refl, record { of_pool = tt; distinct = λ d. tt; many = ground arith })
pick_distinct-IsPick [] (suc count) draws h =
    ([], refl, record { of_pool = tt; distinct = λ d. tt; many = ground arith })
pick_distinct-IsPick (v ∷ ws) (suc count) draws h =
    let (w, rest, e, t) =
      splice-IsTaken (v ∷ ws) (draws 0 (length (v ∷ ws))) (h 0 (length (v ∷ ws)) (omega arith)) in
    let (more, m, p) = pick_distinct-IsPick rest count (skip 1 draws) (λ k. h (1 + k)) in
    (
      w ∷ more,
      pick_step v ws count draws w rest more e m,
      IsPick-one (v ∷ ws) count w rest more t p,
    )
