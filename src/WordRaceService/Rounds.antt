-- ===== src/WordRaceService/Rounds.antt =====
-- The rounds that `plan` of WordRaceService.ts makes of words and offsets.
use dance_sync_back_end.Base.{
  ℕ, ◌+◌, ◌≤◌, ◌<◌, ◌≡◌, refl, false, none, List, [], ◌∷◌, ◌++◌, map, arith, length, All, Text,
  includes, Distinct, text_discrete,
}
use dance_sync_back_end.Model.{Battle, WordRound, scheduled}
use dance_sync_back_end.Identity.{decimal}
use dance_sync_back_end.Identity.Decimals.{decimal-injective}
use dance_sync_back_end.WordRaceService.{min, round_of, rounds_from}
use dance_sync_back_end.WordRaceService.Offsets.{Spaced}

-- Each window closes before the next opens.
abbrev pub Apart : List WordRound → Type 0
Apart [] = Unit {0}
Apart (r ∷ rs) = All (λ s. r.closes_at ≤ s.opens_at) rs × Apart rs

-- A round that nobody has seen yet, open for the window from then on.
abbrev pub IsFresh : ℕ → WordRound → Type 0
IsFresh window_ms r =
    (r.status ≡ scheduled) × (r.winner_id ≡ none) × (r.closes_at ≡ r.opens_at + window_ms)

abbrev pub round_ids : List WordRound → List Text
round_ids = map (λ r. r.id)

append_cancel : (xs ys zs : Text) → xs ++ ys ≡ xs ++ zs → ys ≡ zs
append_cancel [] ys zs e = e
append_cancel (x ∷ xs) ys zs e = append_cancel xs ys zs (ground arith)

module _ (b : Battle) (window_ms : ℕ) where
  module _ (P : ℕ → Type 0) (Q : WordRound → Type 0)
      (f : (n : ℕ) (w : Text) (x : ℕ) → P x → Q (round_of b window_ms n w x)) where
    pub All-rounds_from :
        (n : ℕ) (ws : List Text) (xs : List ℕ) → All P xs → All Q (rounds_from b window_ms n ws xs)
    unfolding rounds_from
    All-rounds_from n [] xs h = tt
    All-rounds_from n (w ∷ ws) [] h = tt
    All-rounds_from n (w ∷ ws) (x ∷ xs) h = (f n w x h.0, All-rounds_from (n + 1) ws xs h.1)

  pub rounds_from-Apart :
      (gap n : ℕ) (ws : List Text) (xs : List ℕ)
      → window_ms ≤ gap
      → Spaced gap xs
      → Apart (rounds_from b window_ms n ws xs)
  unfolding rounds_from
  rounds_from-Apart gap n [] xs g h = tt
  rounds_from-Apart gap n (w ∷ ws) [] g h = tt
  rounds_from-Apart gap n (w ∷ ws) (x ∷ xs) g h = (
    All-rounds_from (λ y. x + gap ≤ y) (λ s. b.started_at + x + window_ms ≤ s.opens_at)
        (λ m v y q. omega arith) (n + 1) ws xs h.0,
    rounds_from-Apart gap (n + 1) ws xs g h.1,
  )

  pub length-rounds_from :
      (n : ℕ) (ws : List Text) (xs : List ℕ)
      → length (rounds_from b window_ms n ws xs) ≡ min (length ws) (length xs)
  unfolding rounds_from
  length-rounds_from n [] xs = ground arith
  length-rounds_from n (w ∷ ws) [] = ground arith
  length-rounds_from n (w ∷ ws) (x ∷ xs) = ground (arith, length-rounds_from (n + 1) ws xs)

  -- Ids of later rounds have later numbers.
  id_free :
      (k n : ℕ) (ws : List Text) (xs : List ℕ)
      → k < n
      → includes (round_ids (rounds_from b window_ms n ws xs)) (b.id ++ 58 ∷ decimal k) ≡ false
  unfolding rounds_from
  id_free k n [] xs h = refl
  id_free k n (w ∷ ws) [] h = refl
  id_free k n (w ∷ ws) (x ∷ xs) h =
      elim (text_discrete (b.id ++ 58 ∷ decimal n) (b.id ++ 58 ∷ decimal k)) [
        | yes same ↦ absurd (
            omega (
              arith,
              decimal-injective n k
                  (ground (arith, append_cancel b.id (58 ∷ decimal n) (58 ∷ decimal k) same)),
            ))
        | no other ↦ ground (arith, id_free k (n + 1) ws xs (omega arith))
      ]

  pub rounds_from-Distinct :
      (n : ℕ) (ws : List Text) (xs : List ℕ)
      → Distinct (round_ids (rounds_from b window_ms n ws xs))
  unfolding rounds_from
  rounds_from-Distinct n [] xs = tt
  rounds_from-Distinct n (w ∷ ws) [] = tt
  rounds_from-Distinct n (w ∷ ws) (x ∷ xs) =
      (id_free n (n + 1) ws xs (omega arith), rounds_from-Distinct (n + 1) ws xs)

  word_free :
      (v : Text) (n : ℕ) (ws : List Text) (xs : List ℕ)
      → includes ws v ≡ false
      → includes (map (λ r. r.word) (rounds_from b window_ms n ws xs)) v ≡ false
  unfolding rounds_from
  word_free v n [] xs h = refl
  word_free v n (w ∷ ws) [] h = refl
  word_free v n (w ∷ ws) (x ∷ xs) h = ground (arith, word_free v (n + 1) ws xs)

  pub words-Distinct :
      (n : ℕ) (ws : List Text) (xs : List ℕ)
      → Distinct ws
      → Distinct (map (λ r. r.word) (rounds_from b window_ms n ws xs))
  unfolding rounds_from
  words-Distinct n [] xs h = tt
  words-Distinct n (w ∷ ws) [] h = tt
  words-Distinct n (w ∷ ws) (x ∷ xs) h =
      (word_free w (n + 1) ws xs h.0, words-Distinct (n + 1) ws xs h.1)
