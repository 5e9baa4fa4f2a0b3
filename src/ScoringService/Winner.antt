-- ===== src/ScoringService/Winner.antt =====
-- The winner that `result` of ScoringService.ts names.
use dance_sync_back_end.Base.{
  ℕ, ◌≤◌, ◌<◌, ◌≡◌, refl, ap, Bool, true, false, ◌↔◌, some, List, [], ◌∷◌, Text, Distinct, arith,
  All, All-imp, All-map, Sorted, filter, nat_eq,
}
use dance_sync_back_end.Model.{Battle, ScoringPoints, Standing}
use dance_sync_back_end.ScoringService.Ranks.{scores, above_bottom, HasRank}
use dance_sync_back_end.ScoringService.Ranking.{comes_before, standings-IsRanking}
use dance_sync_back_end.ScoringService.{standings, winner_of, result}

-- The first of the list is `w`, and everybody else has a lower score.
abbrev pub TopAlone : List Standing → Text → Type 0
TopAlone [] w = ⊥
TopAlone (s ∷ rest) w = (s.dancer_id ≡ w) × All (λ t. t.score < s.score) rest

abbrev leads : Standing → Bool
leads s = nat_eq s.rank 1

module _ (v : ℕ) (ys : List ℕ) (top : All (λ y. y ≤ v) ys) where
  leads-le : (t : Standing) → HasRank (v ∷ ys) t → leads t ≡ true → v ≤ t.score
  leads-le t h e = ground arith

  behind : (t : Standing) → HasRank (v ∷ ys) t → leads t ≡ false → t.score ≤ v → t.score < v
  behind t h e q = ground (arith, above_bottom v ys top)

  leaders_behind :
      (ts : List Standing)
      → All (HasRank (v ∷ ys)) ts
      → All (λ t. t.score ≤ v) ts
      → filter leads ts ≡ []
      → All (λ t. t.score < v) ts
  leaders_behind [] h q e = tt
  leaders_behind (t ∷ ts) h q e = ground (arith, behind t h.0, leaders_behind ts h.1 q.1)

  no_leaders :
      (ts : List Standing)
      → All (HasRank (v ∷ ys)) ts
      → All (λ t. t.score < v) ts
      → filter leads ts ≡ []
  no_leaders [] h q = refl
  no_leaders (t ∷ ts) h q = ground (arith, leads-le t h.0, no_leaders ts h.1)

head_bounds :
    (ids : List Text) (s : Standing) (l : List Standing)
    → Sorted (comes_before ids) (s ∷ l)
    → All (λ t. t.score ≤ s.score) l
head_bounds ids s l h =
    All-imp (λ t. comes_before ids s t ≡ true) (λ t. t.score ≤ s.score) (λ t e. ground arith) l h.0

only_leader :
    (s : Standing) (xs : List Standing) (w : Text)
    → winner_of (s ∷ xs) ≡ some w
    → (s.dancer_id ≡ w) × (xs ≡ [])
only_leader s [] w e = (ground arith, refl)
only_leader s (x ∷ xs) w e = cc

module _ (ids : List Text) (s : Standing) (l : List Standing) (w : Text)
    (h : All (HasRank (scores (s ∷ l))) (s ∷ l)) (k : Sorted (comes_before ids) (s ∷ l)) where
  bounds : All (λ x. x ≤ s.score) (scores l)
  bounds = All-map (λ x. x ≤ s.score) (λ (t : Standing). t.score) l (head_bounds ids s l k)

  first-leads : leads s ≡ true
  first-leads = ground (arith, h.0, above_bottom s.score (scores (s ∷ l)) (omega arith, bounds))

  one_leader_cons : (winner_of (filter leads (s ∷ l)) ≡ some w) ↔ TopAlone (s ∷ l) w
  one_leader_cons = rw first-leads (
    (λ e.
        let (same, rest) = only_leader s (filter leads l) w e in
        (same, leaders_behind s.score (scores l) bounds l h.1 (head_bounds ids s l k) rest)),
    (λ t. rw (no_leaders s.score (scores l) bounds l h.1 t.1, winner_of) (ap some t.0)),
  )

one_leader :
    (ids : List Text) (l : List Standing) (w : Text)
    → All (HasRank (scores l)) l
    → Sorted (comes_before ids) l
    → (winner_of (filter leads l) ≡ some w) ↔ TopAlone l w
one_leader ids [] w h k = (λ e. cc, λ t. absurd t)
one_leader ids (s ∷ l) w h k = one_leader_cons ids s l w h k

-- When the dancers are distinct, a dancer is the winner exactly when they stand first in the
-- standings with a score above every other dancer's.
pub result-TopAlone :
    (b : Battle) (points : ScoringPoints) (w : Text)
    → Distinct b.dancer_ids
    → ((result b points).winner_id ≡ some w) ↔ TopAlone (standings b points) w
unfolding result
result-TopAlone b points w distinct =
    let ranking = standings-IsRanking b points distinct in
    one_leader b.dancer_ids (standings b points) w ranking.ranked ranking.sorted
