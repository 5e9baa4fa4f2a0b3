-- ===== src/ScoringService/Ranks.antt =====
-- The ranks that `standings` of ScoringService.ts assigns, row by row.
use mathlib.Core.List.{append_assoc}
use dance_sync_back_end.Base.{
  ℕ, suc, ◌+◌, ◌≤◌, ◌<◌, ◌≡◌, refl, sym, ap, subst, true, Option, none, some, List, [], ◌∷◌, ◌++◌,
  map, arith, if◌then◌else◌, length, All, All-imp, All-append, Sorted, length-append, ltb, nat_eq,
}
use dance_sync_back_end.Model.{Standing}
use dance_sync_back_end.ScoringService.{Row, row_before, rank_after, rank_from}

abbrev pub scores : List Standing → List ℕ
scores = map (λ s. s.score)

-- How many of the scores are higher.
abbrev pub above : ℕ → List ℕ → ℕ
above v [] = 0
above v (x ∷ xs) = if ltb v x then suc (above v xs) else above v xs

above-append : (v : ℕ) (xs ys : List ℕ) → above v (xs ++ ys) ≡ above v xs + above v ys
above-append v [] ys = omega arith
above-append v (x ∷ xs) ys = ground (arith, above-append v xs ys)

above_top : (v : ℕ) (xs : List ℕ) → All (λ x. v < x) xs → above v xs ≡ length xs
above_top v [] h = refl
above_top v (x ∷ xs) h = ground (arith, above_top v xs h.1)

pub above_bottom : (v : ℕ) (xs : List ℕ) → All (λ x. x ≤ v) xs → above v xs ≡ 0
above_bottom v [] h = refl
above_bottom v (x ∷ xs) h = ground (arith, above_bottom v xs h.1)

abbrev row_score : Row → ℕ
row_score r = r.standing.score

-- The scores never rise along the list, and start at most at `v`.
abbrev Falling : ℕ → List ℕ → Type 0
Falling v [] = Unit {0}
Falling v (x ∷ xs) = (x ≤ v) × Falling x xs

Falling-le : (v : ℕ) (xs : List ℕ) → Falling v xs → All (λ x. x ≤ v) xs
Falling-le v [] h = tt
Falling-le v (x ∷ xs) h =
    (h.0, All-imp (λ y. y ≤ x) (λ y. y ≤ v) (λ y p. omega arith) xs (Falling-le x xs h.1))

-- The rank that competition ranking gives: one more than the number of higher scores.
abbrev pub HasRank : List ℕ → Standing → Type 0
HasRank all s = s.rank ≡ above s.score all + 1

-- What the row above must satisfy, when the scores above it are `pre` and those to come are `ys`.
record Above (p : Standing) (pre ys : List ℕ) : Type 0 where
  ranked : p.rank ≡ above p.score pre + 1
  highest : All (λ x. p.score ≤ x) pre
  falling : Falling p.score ys

above_lower : (v x : ℕ) (xs : List ℕ) → All (λ y. v ≤ y) xs → x < v → above x xs ≡ length xs
above_lower v x [] h q = refl
above_lower v x (y ∷ ys) h q = ground (arith, above_lower v x ys h.1 q)

module _ (p : Standing) (pre ys : List ℕ) (index x : ℕ) where
  rank_head :
      index ≡ length pre
      → Above p pre (x ∷ ys)
      → (if nat_eq p.score x then p.rank else index + 1) ≡ above x (pre ++ x ∷ ys) + 1
  rank_head e h = ground (
    arith,
    h.ranked,
    h.falling,
    above-append x pre (x ∷ ys),
    above_bottom x ys (Falling-le x ys h.falling.1),
    above_lower p.score x pre h.highest,
  )

module _ (p q : Standing) (pre ys : List ℕ) where
  Above-next :
      q.rank ≡ above q.score (pre ++ q.score ∷ ys) + 1
      → Above p pre (q.score ∷ ys)
      → Above q (pre ++ q.score ∷ []) ys
  Above-next r h = record {
    ranked = omega (
      arith,
      r,
      above-append q.score pre (q.score ∷ ys),
      above-append q.score pre (q.score ∷ []),
      above_bottom q.score (q.score ∷ ys) (omega arith, Falling-le q.score ys h.falling.1),
      above_bottom q.score (q.score ∷ []) (omega arith, tt),
    );
    highest =
        All-append (λ y. q.score ≤ y) pre (q.score ∷ [])
          (All-imp (λ y. p.score ≤ y) (λ y. q.score ≤ y) (λ y k. omega (arith, h.falling.0)) pre
            h.highest)
          (omega arith, tt);
    falling = h.falling.1;
  }

rank_from-HasRank :
    (p : Standing) (pre : List ℕ) (index : ℕ) (rows : List Row)
    → index ≡ length pre
    → Above p pre (map row_score rows)
    → All (HasRank (pre ++ map row_score rows)) (rank_from index (some p) rows)
unfolding rank_from
rank_from-HasRank p pre index [] e h = tt
rank_from-HasRank p pre index (row ∷ rows) e h =
    let s : Standing = record row.standing { rank = rank_after (some p) index row.standing } in
    let head_rank = rank_head p pre (map row_score rows) index s.score e h in
    let next = Above-next p s pre (map row_score rows) head_rank h in
    let size : index + 1 ≡ length (pre ++ s.score ∷ []) =
      omega (arith, e, length-append pre (s.score ∷ [])) in
    let rest = rank_from-HasRank s (pre ++ s.score ∷ []) (index + 1) rows size next in
    (
      head_rank,
      subst (λ l. All (HasRank l) (rank_from (index + 1) (some s) rows))
          (append_assoc pre (s.score ∷ []) (map row_score rows)) rest,
    )

pub scores-rank_from :
    (index : ℕ) (previous : Option Standing) (rows : List Row)
    → scores (rank_from index previous rows) ≡ map row_score rows
unfolding rank_from
scores-rank_from index previous [] = refl
scores-rank_from index previous (row ∷ rows) =
    ap (◌∷◌ (row_score row)) (scores-rank_from (index + 1) _ rows)

row_falls :
    (row : Row) (rows : List Row)
    → All (λ r. row_before row r ≡ true) rows
    → Sorted row_before rows
    → Falling (row_score row) (map row_score rows)
row_falls row [] h k = tt
row_falls row (r ∷ rows) h k = (ground (arith, h.0), row_falls r rows k.0 k.1)

pub rank_from_top :
    (rows : List Row)
    → Sorted row_before rows
    → All (HasRank (scores (rank_from 0 none rows))) (rank_from 0 none rows)
unfolding rank_from
rank_from_top [] h = tt
rank_from_top (row ∷ rows) h =
    let s : Standing = record row.standing { rank = 1 } in
    let falls = row_falls row rows h.0 h.1 in
    let bottom =
      above_bottom s.score (s.score ∷ map row_score rows)
        (omega arith, Falling-le s.score (map row_score rows) falls) in
    let first : HasRank (map row_score (row ∷ rows)) s = omega (arith, bottom) in
    let next : Above s (s.score ∷ []) (map row_score rows) = record {
      ranked = omega (arith, above_bottom s.score (s.score ∷ []) (omega arith, tt));
      highest = (omega arith, tt);
      falling = falls;
    } in
    subst (λ l. All (HasRank l) (rank_from 0 none (row ∷ rows)))
      (sym (scores-rank_from 0 none (row ∷ rows)))
      (first, rank_from-HasRank s (s.score ∷ []) 1 rows refl next)
