-- ===== src/ScoringService.antt =====
-- domain/services/ScoringService.ts
pub mod Counts
pub mod Ranks
pub mod Ranking
pub mod Winner
use dance_sync_back_end.Base.{
  ℕ, zero, suc, ◌+◌, ◌*◌, Bool, true, false, ◌&&◌, ◌||◌, Option, none, some, List, [], ◌∷◌, map,
  Text, Dict, lookup, insert, insert_all, has, values, get_or, ltb, leb, nat_eq, if◌then◌else◌,
  length, filter, sort, insert_sorted,
}
use dance_sync_back_end.Model.{Battle, BattleResult, ScoringPoints, Standing, RosterEntry}

-- counts[dancerId] += 1, for the ids in counts
count_vote : Dict ℕ → Text → Dict ℕ
count_vote counts dancer_id =
    if has dancer_id counts
    then insert dancer_id (get_or (lookup dancer_id counts) 0 + 1) counts
    else counts

count_all : Dict ℕ → List Text → Dict ℕ
unfolding count_vote
count_all counts [] = counts
count_all counts (d ∷ ds) = count_all (count_vote counts d) ds

-- Object.fromEntries(battle.dancerIds.map((id) => [id, 0]))
abbrev pub zeros : List Text → Dict ℕ
zeros ids = insert_all [] (map (λ id. (id, 0)) ids)

unfoldable pub vote_counts : Battle → Dict ℕ
unfolding count_all
vote_counts b = count_all (zeros b.dancer_ids) (values b.votes)

-- new Map(battle.roster.map((entry) => [entry.id, entry.displayName]))
abbrev pub names : List RosterEntry → Dict Text
names roster = insert_all [] (map (λ (e : RosterEntry). (e.id, e.display_name)) roster)

pub record Row : Type 0 where
  pub order : ℕ
  pub standing : Standing

module _ (b : Battle) (points : ScoringPoints) (counts : Dict ℕ) where
  abbrev pub standing_of : Text → Standing
  standing_of id =
      let votes = get_or (lookup id counts) 0 in
      let words_won = get_or (lookup id b.words_won) 0 in
      record {
        dancer_id = id;
        display_name = get_or (lookup id (names b.roster)) id;
        votes = votes;
        words_won = words_won;
        score = points.vote_points * votes + points.word_bonus_points * words_won;
        rank = 0;
      }

  -- battle.dancerIds.map((dancerId, order) => …), from `order` on
  unfoldable pub rows_from : ℕ → List Text → List Row
  rows_from order [] = []
  rows_from order (id ∷ ids) =
      record { order = order; standing = standing_of id } ∷ rows_from (order + 1) ids

-- b.score - a.score || a.order - b.order is at most 0
abbrev pub row_before : Row → Row → Bool
row_before a b =
    ltb b.standing.score a.standing.score
    || nat_eq a.standing.score b.standing.score && leb a.order b.order

-- the rank of the row above it, or the position
abbrev rank_after : Option Standing → ℕ → Standing → ℕ
rank_after none index s = index + 1
rank_after (some previous) index s =
    if nat_eq previous.score s.score then previous.rank else index + 1

-- rows.map(({ standing }, index) => …), from `index` on, where `previous` is the row above
unfoldable pub rank_from : ℕ → Option Standing → List Row → List Standing
rank_from index previous [] = []
rank_from index previous (row ∷ rows) =
    let s = record row.standing { rank = rank_after previous index row.standing } in
    s ∷ rank_from (index + 1) (some s) rows

unfoldable pub standings : Battle → ScoringPoints → List Standing
unfolding vote_counts rows_from rank_from sort
standings b points =
    rank_from 0 none (sort row_before (rows_from b points (vote_counts b) 0 b.dancer_ids))

-- leaders.length === 1 ? leaders[0].dancerId : null
abbrev pub winner_of : List Standing → Option Text
winner_of (leader ∷ []) = some leader.dancer_id
winner_of _ = none

unfoldable pub result : Battle → ScoringPoints → BattleResult
unfolding standings
result b points = record {
  standings = standings b points;
  winner_id = winner_of (filter (λ s. nat_eq s.rank 1) (standings b points));
}
