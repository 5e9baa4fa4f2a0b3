-- ===== src/ScoringService/Counts.antt =====
-- `voteCounts` against a plain count of the votes.
use dance_sync_back_end.Base.{
  ℕ, suc, ◌+◌, ◌≡◌, refl, Option, none, some, List, [], ◌∷◌, map, Text, ◌==◌, Dict, lookup,
  lookup-insert, insert, insert_all, values, includes, arith, if◌then◌else◌,
}
use dance_sync_back_end.Model.{Battle}
use dance_sync_back_end.ScoringService.{count_vote, count_all, zeros, vote_counts}

-- How often a text stands in a list.
abbrev pub count : Text → List Text → ℕ
count d [] = 0
count d (x ∷ xs) = if x == d then suc (count d xs) else count d xs

abbrev add_to : ℕ → Option ℕ → Option ℕ
add_to n none = none
add_to n (some m) = some (m + n)

lookup-count_vote :
    (m : Dict ℕ) (d j : Text)
    → lookup j (count_vote m d) ≡ (if d == j then add_to 1 (lookup j m) else lookup j m)
unfolding count_vote
lookup-count_vote m d j = ground (arith, lookup-insert d j (get_or_zero + 1) m)
  where
    get_or_zero : ℕ
    get_or_zero = elim (lookup d m) [ none ↦ 0 | some n ↦ n ]

lookup-count_all :
    (m : Dict ℕ) (ds : List Text) (j : Text)
    → lookup j (count_all m ds) ≡ add_to (count j ds) (lookup j m)
unfolding count_all
lookup-count_all m [] j = ground arith
lookup-count_all m (d ∷ ds) j =
    ground (arith, lookup-count_all (count_vote m d) ds j, lookup-count_vote m d j)

pub lookup-zeros_onto :
    (m : Dict ℕ) (ids : List Text) (j : Text)
    → lookup j (insert_all m (map (λ id. (id, 0)) ids))
      ≡ (if includes ids j then some 0 else lookup j m)
lookup-zeros_onto m [] j = refl
lookup-zeros_onto m (i ∷ ids) j =
    ground (arith, lookup-zeros_onto (insert i 0 m) ids j, lookup-insert i j 0 m)

-- Every dancer still in the battle has as many votes as there are votes for them; no one else is
-- counted.
pub lookup-vote_counts :
    (b : Battle) (j : Text)
    → lookup j (vote_counts b)
      ≡ (if includes b.dancer_ids j then some (count j (values b.votes)) else none)
unfolding vote_counts
lookup-vote_counts b j = ground (
  arith,
  lookup-count_all (zeros b.dancer_ids) (values b.votes) j,
  lookup-zeros_onto [] b.dancer_ids j,
)
