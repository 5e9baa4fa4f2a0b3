-- ===== src/WordRaceService/Offsets.antt =====
-- The timeline of a word race: `randomOffsets`.
use dance_sync_back_end.Base.{
  ◌||◌, ℕ, zero, suc, ◌+◌, ◌-◌, ◌*◌, ◌/◌, ◌≤◌, ◌<◌, ◌≡◌, refl, sym, subst, true, false, List, [],
  ◌∷◌, arith, length, leb, ltb, nat_eq, All, All-imp, All-sort, Sorted, sort, sort-Sorted,
  length-sort, Bool-cases, inl, inr,
}
use native.Mathlib.Nat.{mul-le-mul_right, div-mul-le_self, lt-div-mul-add}
use dance_sync_back_end.WordRaceService.{
  Draws, skip, max, rounds_that_fit, draw_points, spread, random_offsets,
}

-- Every draw is below its bound.
abbrev pub InRange : Draws → Type 0
InRange draws = (k n : ℕ) → 0 < n → draws k n < n

-- Openings at least `gap` apart, in ascending order.
abbrev pub Spaced : ℕ → List ℕ → Type 0
Spaced gap [] = Unit {0}
Spaced gap (x ∷ xs) = All (λ y. x + gap ≤ y) xs × Spaced gap xs

draw_points-le :
    (count n : ℕ) (draws : Draws)
    → InRange draws
    → All (λ p. p ≤ n) (draw_points count (n + 1) draws)
unfolding draw_points
draw_points-le zero n draws h = tt
draw_points-le (suc count) n draws h = (
  omega (arith, h 0 (n + 1) (omega arith)),
  draw_points-le count n (skip 1 draws) (λ k m. h (1 + k) m),
)

length-draw_points : (count n : ℕ) (draws : Draws) → length (draw_points count n draws) ≡ count
unfolding draw_points
length-draw_points zero n draws = refl
length-draw_points (suc count) n draws = omega (arith, length-draw_points count n (skip 1 draws))

length-spread : (first step i : ℕ) (ps : List ℕ) → length (spread first step i ps) ≡ length ps
unfolding spread
length-spread first step i [] = refl
length-spread first step i (p ∷ ps) = omega (arith, length-spread first step (i + 1) ps)

mul_suc : (j step : ℕ) → (j + 1) * step ≡ j * step + step
mul_suc j step = grind arith

mul_mono : (i j step : ℕ) → i ≤ j → i * step ≤ j * step
mul_mono i j step h = mul-le-mul_right step h

spread_above :
    (first step c p j : ℕ) (ps : List ℕ)
    → c ≤ j * step
    → All (λ q. leb p q ≡ true) ps
    → All (λ y. first + p + c ≤ y) (spread first step j ps)
unfolding spread
spread_above first step c p j [] h k = tt
spread_above first step c p j (q ∷ ps) h k = (
  ground (arith, k.0),
  spread_above first step c p (j + 1) ps (omega (arith, mul_suc j step)) k.1,
)

spread-Spaced :
    (first step i : ℕ) (ps : List ℕ) → Sorted leb ps → Spaced step (spread first step i ps)
unfolding spread
spread-Spaced first step i [] h = tt
spread-Spaced first step i (p ∷ ps) h = (
  All-imp (λ y. first + p + (i * step + step) ≤ y) (λ y. first + p + i * step + step ≤ y)
      (λ y q. omega arith) (spread first step (i + 1) ps)
      (spread_above first step (i * step + step) p (i + 1) ps (omega (arith, mul_suc i step)) h.0),
  spread-Spaced first step (i + 1) ps h.1,
)

spread-le-first : (first step i : ℕ) (ps : List ℕ) → All (λ y. first ≤ y) (spread first step i ps)
unfolding spread
spread-le-first first step i [] = tt
spread-le-first first step i (p ∷ ps) = (omega arith, spread-le-first first step (i + 1) ps)

-- The last of `count` openings is at most `slack` after its earliest moment.
spread_below :
    (first step slack count i : ℕ) (ps : List ℕ)
    → i + length ps ≤ count
    → All (λ p. p ≤ slack) ps
    → All (λ y. y ≤ first + slack + (count - 1) * step) (spread first step i ps)
unfolding spread
spread_below first step slack count i [] h k = tt
spread_below first step slack count i (p ∷ ps) h k = (
  omega (arith, mul_mono i (count - 1) step (omega arith), k.0),
  spread_below first step slack count (i + 1) ps (omega arith) k.1,
)

fits : (rounds span step : ℕ) → (rounds_that_fit rounds span step - 1) * step ≤ span
unfolding rounds_that_fit
fits rounds span zero = omega arith
fits rounds span (suc s) = omega (
  arith,
  mul_mono (rounds_that_fit rounds span (suc s) - 1) (span / suc s) (suc s) (ground arith),
  div-mul-le_self span (suc s),
)

fit-le : (rounds span step : ℕ) → rounds_that_fit rounds span step ≤ rounds
unfolding rounds_that_fit
fit-le rounds span zero = ground arith
fit-le rounds span (suc s) = ground arith

-- Fewer rounds than wanted only when one more would not fit.
fit_most :
    (rounds span step : ℕ)
    → 0 < step
    → rounds_that_fit rounds span step < rounds
    → span < rounds_that_fit rounds span step * step
unfolding rounds_that_fit
fit_most rounds span zero h k = omega arith
fit_most rounds span (suc s) h k = elim (Bool-cases (leb rounds (span / suc s + 1))) [
  | inl few ↦ absurd (ground arith)
  | inr many ↦
      rw many
        (omega (arith, mul_suc (span / suc s) (suc s), lt-div-mul-add {a = span} {b = suc s} h))
]

-- What a timeline promises: openings in order, at least the longer of the gap and the window apart,
-- each with its whole window in the usable part of the song; no more than the rounds wanted, and
-- fewer only when one more would not fit.
pub record IsTimeline (rounds window_ms min_gap_ms first last_ms : ℕ) (offsets : List ℕ)
    : Type 0 where
  pub spaced : Spaced (max min_gap_ms window_ms) offsets
  pub after : All (λ o. first ≤ o) offsets
  pub before : All (λ o. o + window_ms ≤ last_ms) offsets
  pub few : length offsets ≤ rounds
  pub full :
      length offsets < rounds
      → last_ms < first + length offsets * max min_gap_ms window_ms + window_ms

module _ (rounds window_ms min_gap_ms first last_ms : ℕ) (draws : Draws) (h : InRange draws)
    (positive : 0 < window_ms) where
  no_round :
      (nat_eq rounds 0 || ltb last_ms (first + window_ms)) ≡ true
      → IsTimeline rounds window_ms min_gap_ms first last_ms []
  no_round e = record {
    spaced = tt;
    after = tt;
    before = tt;
    few = omega arith;
    full = λ k. ground arith;
  }

  abbrev step : ℕ
  step = max min_gap_ms window_ms

  abbrev span : ℕ
  span = last_ms - window_ms - first

  abbrev count : ℕ
  count = rounds_that_fit rounds span step

  abbrev slack : ℕ
  slack = span - (count - 1) * step

  points : List ℕ
  points = sort leb (draw_points count (slack + 1) draws)

  points-le : All (λ p. p ≤ slack) points
  unfolding points
  points-le = All-sort (λ p. p ≤ slack) leb _ (draw_points-le count slack draws h)

  points-Sorted : Sorted leb points
  unfolding points
  points-Sorted = sort-Sorted leb (λ a b e. ground arith) (λ a b c e k. ground arith) _

  length-points : length points ≡ count
  unfolding points
  length-points = omega (
    arith,
    length-sort leb (draw_points count (slack + 1) draws),
    length-draw_points count (slack + 1) draws,
  )

  count_most : count < rounds → last_ms < first + count * step + window_ms
  count_most k = omega (arith, fit_most rounds span step (ground (arith, positive)) k, span-lt)
    where
      span-lt : last_ms ≤ first + span + window_ms
      span-lt = omega arith

  length-offsets : length (spread first step 0 points) ≡ count
  length-offsets = omega (arith, length-spread first step 0 points, length-points)

  some_rounds :
      (nat_eq rounds 0 || ltb last_ms (first + window_ms)) ≡ false
      → IsTimeline rounds window_ms min_gap_ms first last_ms (spread first step 0 points)
  some_rounds e = record {
    spaced = spread-Spaced first step 0 points points-Sorted;
    after = spread-le-first first step 0 points;
    before =
        All-imp _ (λ o. o + window_ms ≤ last_ms) (λ y q. ground (arith, fits rounds span step))
          (spread first step 0 points)
          (spread_below first step slack count 0 points (omega (arith, length-points)) points-le);
    few = omega (arith, length-offsets, fit-le rounds span step);
    full =
        subst (λ n. n < rounds → last_ms < first + n * step + window_ms) (sym length-offsets)
          count_most;
  }

  -- When every draw is in range and the window is not empty, the random openings are in order and
  -- at least the longer of the gap and the window apart, so windows never overlap; every window
  -- lies in the usable part of the song; and fewer rounds are planned than wanted only when one
  -- more would not fit.
  pub random_offsets-IsTimeline :
      IsTimeline rounds window_ms min_gap_ms first last_ms
        (random_offsets rounds window_ms min_gap_ms first last_ms draws)
  unfolding random_offsets points
  random_offsets-IsTimeline =
      elim (Bool-cases (nat_eq rounds 0 || ltb last_ms (first + window_ms))) [
        | inl none_fits ↦ rw none_fits (no_round none_fits)
        | inr fitting ↦ rw fitting (some_rounds fitting)
      ]
