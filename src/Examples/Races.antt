-- ===== src/Examples/Races.antt =====
-- A word race: its plan, and who wins a round.
use dance_sync_back_end.Base.{
  ◌/◌, ◌*◌, ◌≤◌, ◌≡◌, refl, none, some, List, [], ◌∷◌, text, Text, lookup, text_discrete, arith,
}
use dance_sync_back_end.Errors.{ok}
use dance_sync_back_end.Model.{WordRace, WordRound, scheduled, string, word_won, won}
use dance_sync_back_end.Identity.{decimal, normalize_attempt}
use dance_sync_back_end.WordRaceService.{PlanWordRaceOptions, Draws, judge, random_offsets, plan}
use dance_sync_back_end.WordRaceService.Offsets.{IsTimeline, random_offsets-IsTimeline}
use dance_sync_back_end.WordRaceService.Plans.{IsPlan, plan-IsPlan}
use dance_sync_back_end.WordRaceRepository.{
  Races, claim_round, open_round, expire_round, save_race, find_race, key,
}
use dance_sync_back_end.WordRaceRepository.Settling.{
  RaceStep, opens, claims, expires, take_step, settlements, settlements-le_one,
}
use dance_sync_back_end.WordRaceRepository.Races.{
  AllTallied, RaceChange, starts, steps, change_all, change_all-AllTallied,
}
use dance_sync_back_end.UseCases.WordRaces.{SubmitWordOutput, submit_word, round_read}
use dance_sync_back_end.UseCases.WordRaces.Submissions.{
  IsRightAttempt, IsWonBy, submit_word-IsWonBy,
}
use dance_sync_back_end.Examples.Samples.{plain, ana, bea, duel, arena}

abbrev lowest : Draws
lowest k n = 0

-- Three rounds in a song of a minute and a half, in the first moments that the gaps leave.
random_offsets_example :
    IsTimeline 3 10000 12000 9000 76500 (random_offsets 3 10000 12000 9000 76500 lowest)
random_offsets_example =
    random_offsets-IsTimeline 3 10000 12000 9000 76500 lowest (λ k n h. h) (omega arith)

offsets_of_a_song : random_offsets 3 10000 12000 9000 76500 lowest ≡ 9000 ∷ 21000 ∷ 33000 ∷ []
unfolding random_offsets
offsets_of_a_song = refl

abbrev pub options : PlanWordRaceOptions
options = record {
  rounds = 2;
  window_ms = 10;
  min_gap_ms = 20;
  fallback_duration_ms = 40;
  start_margin = λ n. n / 10;
  end_margin = λ n. n * 85 / 100;
  draws = lowest;
  words = text "ritmo" ∷ text "paso" ∷ [];
  offsets_ms = none;
}

plan-IsPlan_example : (race : WordRace) × (plan arena options ≡ ok race) × IsPlan duel options race
plan-IsPlan_example = plan-IsPlan arena duel options refl refl refl (λ k n h. h) (omega arith)

abbrev room_code : Text
room_code = text "ROOM"

abbrev pub round_one : Text
round_one = text "b1:1"

abbrev evening : List RaceChange
evening =
    starts arena options
    ∷ steps (opens room_code round_one)
    ∷ steps (claims room_code round_one bea 110)
    ∷ steps (claims room_code round_one ana 111)
    ∷ steps (expires room_code round_one 120)
    ∷ []

change_all-AllTallied_example : AllTallied (change_all plain evening [])
change_all-AllTallied_example = change_all-AllTallied plain evening [] tt

-- bea won the first round, and has one win.
wins_of_bea :
    (elim (lookup room_code (change_all plain evening [])) [
      | none ↦ none
      | some race ↦ lookup bea race.wins
    ])
    ≡ some 1
unfolding change_all text_discrete take_step expire_round claim_round open_round plan save_race
    decimal
wins_of_bea = refl

-- The races with the first round open.
abbrev pub at_start : Races
at_start = change_all plain (starts arena options ∷ steps (opens room_code round_one) ∷ []) []

abbrev calls : List RaceStep
calls =
    claims room_code round_one bea 110
    ∷ claims room_code round_one ana 111
    ∷ expires room_code round_one 120
    ∷ []

settlements-le_one_example : settlements plain room_code round_one calls at_start ≤ 1
settlements-le_one_example = settlements-le_one plain room_code round_one calls at_start

settled_once : settlements plain room_code round_one calls at_start ≡ 1
unfolding settlements change_all text_discrete claim_round open_round plan save_race decimal
    expire_round
settled_once = refl

abbrev round_won : WordRound
round_won = record {
  id = round_one;
  number = 1;
  word = text "ritmo";
  opens_at = 104;
  closes_at = 114;
  winner_id = some bea;
  status = won;
}

abbrev answer : SubmitWordOutput
answer = record {
  outcome = word_won;
  round = round_won;
  race = record {
    room_code = room_code;
    battle_id = text "b1";
    participant_ids = ana ∷ bea ∷ [];
    participant_names = (ana, ana) ∷ (bea, bea) ∷ [];
    rounds =
        round_won
        ∷ record {
          id = text "b1:2";
          number = 2;
          word = text "paso";
          opens_at = 124;
          closes_at = 134;
          winner_id = none;
          status = scheduled;
        }
        ∷ [];
    wins = (ana, 0) ∷ (bea, 1) ∷ [];
  };
}

bea_answered :
    (submit_word plain room_code bea
      (string round_one)
      (string (text "ritmo"))
      110
      at_start
      at_start
      (λ r. r)).0
    ≡ ok answer
unfolding submit_word change_all text_discrete claim_round open_round plan save_race decimal
    find_race take_step judge normalize_attempt
bea_answered = refl

submit_word-IsWonBy_example :
    (race : WordRace) × (round : WordRound) × (round_read
        (find_race plain room_code at_start)
        round_one
      ≡ ok (race, round))
    × IsRightAttempt plain race round bea (text "ritmo")
    × IsWonBy
        (key plain room_code)
        round_one
        bea
        110
        round_won
        at_start
        (submit_word plain room_code bea
          (string round_one)
          (string (text "ritmo"))
          110
          at_start
          at_start
          (λ r. r)).1
submit_word-IsWonBy_example =
    submit_word-IsWonBy plain room_code bea round_one (text "ritmo") 110 at_start at_start (λ r. r)
      answer bea_answered refl
