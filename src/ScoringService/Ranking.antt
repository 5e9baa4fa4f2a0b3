-- ===== src/ScoringService/Ranking.antt =====
-- What a ranking is, independently of how `standings` of ScoringService.ts sorts and ranks.
use mathlib.Core.List.{Perm, append_assoc}
use mathlib.Core.List.Perm
use dance_sync_back_end.Base.{
  ℕ, suc, ◌+◌, ◌*◌, ◌≡◌, refl, sym, ap, ◌∙◌, subst, Bool, true, false, ◌||◌, ◌&&◌, Option, none,
  some, List, [], ◌∷◌, ◌++◌, map, Text, ◌==◌, includes, Distinct, lookup, get_or, values, arith,
  if◌then◌else◌, length, length-append, All, All-imp, All-of_map, All-map, All-sort, Sorted,
  Sorted-map, Sorted-of_map, sort, sort-perm, sort-Sorted, ltb, leb, nat_eq,
}
use dance_sync_back_end.Model.{Battle, ScoringPoints, Standing}
use dance_sync_back_end.ScoringService.Counts.{count, lookup-vote_counts}
use dance_sync_back_end.ScoringService.Ranks.{scores, HasRank, rank_from_top}
use dance_sync_back_end.ScoringService.{
  Row, rows_from, row_before, rank_from, rank_after, standings, standing_of, vote_counts,
}

-- The index of a text in a list.
abbrev pub position : Text → List Text → ℕ
position d [] = 0
position d (x ∷ xs) = if x == d then 0 else suc (position d xs)

-- Best score first; equal scores in the order of the battle's dancers.
abbrev pub comes_before : List Text → Standing → Standing → Bool
comes_before ids a b =
    ltb b.score a.score
    || nat_eq a.score b.score && leb (position a.dancer_id ids) (position b.dancer_id ids)

-- The columns of a row, from the votes and the rounds won.
pub record IsCounted (b : Battle) (points : ScoringPoints) (s : Standing) : Type 0 where
  pub votes : s.votes ≡ count s.dancer_id (values b.votes)
  pub words : s.words_won ≡ get_or (lookup s.dancer_id b.words_won) 0
  pub score : s.score ≡ points.vote_points * s.votes + points.word_bonus_points * s.words_won

pub record IsRanking (b : Battle) (points : ScoringPoints) (l : List Standing) : Type 0 where
  pub dancers : Perm (map (λ s. s.dancer_id) l) b.dancer_ids
  pub counted : All (IsCounted b points) l
  pub ranked : All (HasRank (scores l)) l
  pub sorted : Sorted (comes_before b.dancer_ids) l

abbrev unranked : Standing → Standing
unranked s = record s { rank = 0 }

module _ (b : Battle) (points : ScoringPoints) where
  abbrev sorted_rows : List Row
  sorted_rows = sort row_before (rows_from b points (vote_counts b) 0 b.dancer_ids)

  -- What a row knows: its standing is the one of its dancer, and its order is the dancer's position.
  record IsRow (r : Row) : Type 0 where
    listed : includes b.dancer_ids r.standing.dancer_id ≡ true
    fresh : r.standing.rank ≡ 0
    columns : r.standing ≡ standing_of b points (vote_counts b) r.standing.dancer_id
    placed : r.order ≡ position r.standing.dancer_id b.dancer_ids

unranked-rank_from :
    (index : ℕ) (previous : Option Standing) (rows : List Row)
    → All (λ (r : Row). r.standing.rank ≡ 0) rows
    → map unranked (rank_from index previous rows) ≡ map (λ r. r.standing) rows
unfolding rank_from
unranked-rank_from index previous [] h = refl
unranked-rank_from index previous (row ∷ rows) h = ground (
  arith,
  h.0,
  unranked-rank_from (index + 1)
      (some (record row.standing { rank = rank_after previous index row.standing })) rows h.1,
)

includes-append :
    (xs ys : List Text) (d : Text) → includes (xs ++ ys) d ≡ (includes xs d || includes ys d)
includes-append [] ys d = refl
includes-append (x ∷ xs) ys d = ground (arith, includes-append xs ys d)

Distinct-middle : (xs ys : List Text) (d : Text) → Distinct (xs ++ d ∷ ys) → includes xs d ≡ false
Distinct-middle [] ys d h = refl
Distinct-middle (x ∷ xs) ys d h =
    ground (arith, h.0, includes-append xs (d ∷ ys) x, Distinct-middle xs ys d h.1)

position-middle :
    (xs ys : List Text) (d : Text) → includes xs d ≡ false → position d (xs ++ d ∷ ys) ≡ length xs
position-middle [] ys d h = ground arith
position-middle (x ∷ xs) ys d h = ground (arith, position-middle xs ys d)

rows_from-IsRow :
    (b : Battle) (points : ScoringPoints) (pre : List Text) (index : ℕ) (ids : List Text)
    → index ≡ length pre
    → Distinct (pre ++ ids)
    → b.dancer_ids ≡ pre ++ ids
    → All (IsRow b points) (rows_from b points (vote_counts b) index ids)
unfolding rows_from
rows_from-IsRow b points pre index [] i h e = tt
rows_from-IsRow b points pre index (id ∷ ids) i h e =
    let q = sym (append_assoc pre (id ∷ []) ids) in
    (
      record {
        listed = rw e (ground (arith, includes-append pre (id ∷ ids) id));
        fresh = refl;
        columns = refl;
        placed = rw (e, position-middle pre ids id (Distinct-middle pre ids id h)) i;
      },
      rows_from-IsRow b points (pre ++ id ∷ []) (index + 1) ids
          (omega (arith, i, length-append pre (id ∷ []))) (subst Distinct q h) (e ∙ q),
    )

ids-rows_from :
    (b : Battle) (points : ScoringPoints) (index : ℕ) (ids : List Text)
    → map (λ (r : Row). r.standing.dancer_id) (rows_from b points (vote_counts b) index ids) ≡ ids
unfolding rows_from
ids-rows_from b points index [] = refl
ids-rows_from b points index (id ∷ ids) = ap (◌∷◌ id) (ids-rows_from b points (index + 1) ids)

row_total : (a b : Row) → row_before a b ≡ false → row_before b a ≡ true
row_total a b h = ground arith

row_trans : (a b c : Row) → row_before a b ≡ true → row_before b c ≡ true → row_before a c ≡ true
row_trans a b c h k = ground arith

module _ (b : Battle) (points : ScoringPoints) (distinct : Distinct b.dancer_ids) where
  sorted_rows-IsRow : All (IsRow b points) (sorted_rows b points)
  sorted_rows-IsRow =
      All-sort (IsRow b points) row_before _
        (rows_from-IsRow b points [] 0 b.dancer_ids refl distinct refl)

  sorted_rows-Sorted : Sorted row_before (sorted_rows b points)
  sorted_rows-Sorted = sort-Sorted row_before row_total row_trans _

  same_rows : map unranked (standings b points) ≡ map (λ r. r.standing) (sorted_rows b points)
  unfolding standings
  same_rows =
      unranked-rank_from 0 none (sorted_rows b points)
        (All-imp (IsRow b points) (λ r. r.standing.rank ≡ 0) (λ r h. h.fresh) _ sorted_rows-IsRow)

ids-unranked :
    (l : List Standing) → map (λ s. s.dancer_id) (map unranked l) ≡ map (λ s. s.dancer_id) l
ids-unranked [] = refl
ids-unranked (s ∷ l) = ap (◌∷◌ s.dancer_id) (ids-unranked l)

ids-standing :
    (l : List Row)
    → map (λ (s : Standing). s.dancer_id) (map (λ r. r.standing) l)
      ≡ map (λ r. r.standing.dancer_id) l
ids-standing [] = refl
ids-standing (r ∷ l) = ap (◌∷◌ r.standing.dancer_id) (ids-standing l)

IsRow-IsCounted :
    (b : Battle) (points : ScoringPoints) (r : Row)
    → IsRow b points r
    → IsCounted b points r.standing
IsRow-IsCounted b points r h = record {
  votes = ground (arith, h.listed, h.columns, lookup-vote_counts b r.standing.dancer_id);
  words = cc (ap (λ (s : Standing). s.words_won) h.columns);
  score = ground (arith, h.columns);
}

module _ (b : Battle) (points : ScoringPoints) (distinct : Distinct b.dancer_ids) where
  ids-standings :
      map (λ s. s.dancer_id) (standings b points)
      ≡ map (λ r. r.standing.dancer_id) (sorted_rows b points)
  ids-standings =
      sym (ids-unranked (standings b points))
      ∙ ap (map (λ s. s.dancer_id)) (same_rows b points distinct)
      ∙ ids-standing (sorted_rows b points)

  standings-perm : Perm (map (λ s. s.dancer_id) (standings b points)) b.dancer_ids
  standings-perm =
      subst (λ l. Perm l b.dancer_ids) (sym ids-standings)
        (subst (λ l. Perm (map (λ (r : Row). r.standing.dancer_id) (sorted_rows b points)) l)
          (ids-rows_from b points 0 b.dancer_ids)
          (Perm.map (λ (r : Row). r.standing.dancer_id) (sort-perm row_before _)))

  standings-IsCounted : All (IsCounted b points) (standings b points)
  standings-IsCounted =
      All-imp (λ s. IsCounted b points (unranked s)) (IsCounted b points)
        (λ s h. record { votes = h.votes; words = h.words; score = h.score }) (standings b points)
        (All-of_map (IsCounted b points) unranked (standings b points) (
          subst (All (IsCounted b points)) (sym (same_rows b points distinct)) (
            All-map (IsCounted b points) (λ (r : Row). r.standing) (sorted_rows b points)
              (All-imp (IsRow b points) (λ r. IsCounted b points r.standing)
                (IsRow-IsCounted b points) (sorted_rows b points)
                (sorted_rows-IsRow b points distinct)))))

  standings-ranked : All (HasRank (scores (standings b points))) (standings b points)
  unfolding standings
  standings-ranked = rank_from_top (sorted_rows b points) (sorted_rows-Sorted b points distinct)

  standings-Sorted : Sorted (comes_before b.dancer_ids) (standings b points)
  standings-Sorted = Sorted-of_map unranked (comes_before b.dancer_ids) (standings b points) (
      subst (Sorted (comes_before b.dancer_ids)) (sym (same_rows b points distinct)) (
        Sorted-map (IsRow b points) (λ (r : Row). r.standing) row_before (comes_before b.dancer_ids)
          (λ r q h k before. ground (arith, h.placed, k.placed)) (sorted_rows b points)
          (sorted_rows-IsRow b points distinct) (sorted_rows-Sorted b points distinct)))

-- When the dancers are distinct, the standings rank exactly the dancers still in the battle: each
-- row has the votes for its dancer, the rounds they won and the score of both, its rank is one more
-- than the number of better scores, and the rows fall by score, in the dancers' order on a tie.
pub standings-IsRanking :
    (b : Battle) (points : ScoringPoints)
    → Distinct b.dancer_ids
    → IsRanking b points (standings b points)
standings-IsRanking b points distinct = record {
  dancers = standings-perm b points distinct;
  counted = standings-IsCounted b points distinct;
  ranked = standings-ranked b points distinct;
  sorted = standings-Sorted b points distinct;
}
