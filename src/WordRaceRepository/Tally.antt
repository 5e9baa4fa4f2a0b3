-- ===== src/WordRaceRepository/Tally.antt =====
-- The wins of a race and its rounds, when a round is replaced.
use dance_sync_back_end.Base.{
  one_if, ℕ, ◌+◌, ◌≡◌, refl, sym, subst, ap, Bool, false, Option, none, some, List, [], ◌∷◌, map,
  Text, ◌==◌, lookup, lookup-insert, arith, text_discrete, Distinct, includes, get_or,
}
use dance_sync_back_end.Model.{WordRace, WordRound}
use dance_sync_back_end.WordRaceService.Rounds.{round_ids}
use dance_sync_back_end.WordRaceRepository.{count_win, find_round, replace_round, with_round}
use dance_sync_back_end.WordRaceRepository.FoundRounds.{find_round-id}

abbrev pub won_by : Text → WordRound → Bool
won_by player_id round = elim round.winner_id [ none ↦ false | some winner ↦ winner == player_id ]

-- How many rounds the player won.
abbrev pub rounds_won : Text → List WordRound → ℕ
rounds_won player_id [] = 0
rounds_won player_id (r ∷ rounds) = one_if (won_by player_id r) + rounds_won player_id rounds

pub record IsTallied (race : WordRace) : Type 0 where
  pub distinct : Distinct (round_ids race.rounds)
  pub counted :
      (player_id : Text) → get_or (lookup player_id race.wins) 0 ≡ rounds_won player_id race.rounds

replace_absent :
    (next : WordRound) (rounds : List WordRound)
    → includes (round_ids rounds) next.id ≡ false
    → map (replace_round next) rounds ≡ rounds
replace_absent next [] h = refl
replace_absent next (r ∷ rounds) h = ground (arith, replace_absent next rounds)

round_ids-replace :
    (next : WordRound) (rounds : List WordRound)
    → round_ids (map (replace_round next) rounds) ≡ round_ids rounds
round_ids-replace next [] = refl
round_ids-replace next (r ∷ rounds) = ground (arith, round_ids-replace next rounds)

rounds_won-replace :
    (player_id id : Text) (round next : WordRound) (rounds : List WordRound)
    → Distinct (round_ids rounds)
    → find_round rounds id ≡ some round
    → next.id ≡ round.id
    → rounds_won player_id (map (replace_round next) rounds) + one_if (won_by player_id round)
      ≡ rounds_won player_id rounds + one_if (won_by player_id next)
rounds_won-replace player_id id round next [] d f e = absurd (ground arith)
rounds_won-replace player_id id round next (r ∷ rounds) d f e = elim (text_discrete r.id id) [
  | yes here ↦
      let same : r ≡ round = ground arith in
      let absent : map (replace_round next) rounds ≡ rounds =
        replace_absent next rounds (ground (arith, d.0)) in
      rw absent (ground arith)
  | no later ↦
      let found : find_round rounds id ≡ some round = ground arith in
      let other : (r.id == next.id) ≡ false = ground (arith, find_round-id rounds id round found) in
      rw other (omega (arith, rounds_won-replace player_id id round next rounds d.1 found e))
]

module _ (race : WordRace) (id : Text) (round : WordRound) (h : IsTallied race)
    (f : find_round race.rounds id ≡ some round) where
  -- A round that changes, but not its winner.
  pub moved-IsTallied :
      (next : WordRound)
      → next.id ≡ round.id
      → next.winner_id ≡ round.winner_id
      → IsTallied (with_round race next)
  unfolding with_round
  moved-IsTallied next e w = record {
    distinct = subst Distinct (sym (round_ids-replace next race.rounds)) h.distinct;
    counted = λ j. ground (
      arith,
      h.counted j,
      rounds_won-replace j id round next race.rounds h.distinct f e,
      ap (λ x. one_if (winner_is j x)) w,
    );
  }
    where
      winner_is : Text → Option Text → Bool
      winner_is j x = elim x [ none ↦ false | some winner ↦ winner == j ]

  pub claimed-IsTallied :
      (next : WordRound) (player_id : Text)
      → next.id ≡ round.id
      → next.winner_id ≡ some player_id
      → round.winner_id ≡ none
      → IsTallied (record (with_round race next) { wins = count_win player_id race.wins })
  unfolding with_round
  claimed-IsTallied next player_id e w v = record {
    distinct = subst Distinct (sym (round_ids-replace next race.rounds)) h.distinct;
    counted = λ j. ground (
      arith,
      h.counted j,
      rounds_won-replace j id round next race.rounds h.distinct f e,
      lookup-insert player_id j (get_or (lookup player_id race.wins) 0 + 1) race.wins,
      w,
      v,
    );
  }
