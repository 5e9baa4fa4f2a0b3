-- ===== src/Examples/Scores.antt =====
-- The score of a battle.
use dance_sync_back_end.Base.{◌≡◌, refl, some, [], ◌∷◌, map, Distinct, lookup, ◌↔◌, text_discrete}
use dance_sync_back_end.ScoringService.{vote_counts, standings, result}
use dance_sync_back_end.ScoringService.Counts.{lookup-vote_counts}
use dance_sync_back_end.ScoringService.Ranking.{IsRanking, standings-IsRanking}
use dance_sync_back_end.ScoringService.Winner.{TopAlone, result-TopAlone}
use dance_sync_back_end.Examples.Samples.{bea, points, duel}

-- bea has both votes.
lookup-vote_counts_example : lookup bea (vote_counts duel) ≡ some 2
unfolding text_discrete
lookup-vote_counts_example = lookup-vote_counts duel bea

duel-Distinct : Distinct duel.dancer_ids
unfolding text_discrete
duel-Distinct = (refl, (refl, tt))

-- The two dancers are ranked.
standings-IsRanking_example : IsRanking duel points (standings duel points)
standings-IsRanking_example = standings-IsRanking duel points duel-Distinct

-- bea wins if and only if she stands alone on top.
result-TopAlone_example :
    ((result duel points).winner_id ≡ some bea) ↔ TopAlone (standings duel points) bea
result-TopAlone_example = result-TopAlone duel points bea duel-Distinct

-- She does, with four points against one.
duel_scores : map (λ s. s.score) (standings duel points) ≡ 4 ∷ 1 ∷ []
unfolding standings text_discrete
duel_scores = refl

duel_winner : (result duel points).winner_id ≡ some bea
unfolding result text_discrete
duel_winner = refl
