-- ===== src/UseCases/WordRaces.antt =====
-- The word race commands of application/usecases. Between two calls of a store others may act, so a
-- command reads the races as they were `earlier`, and `meanwhile` is what others do after its step.
pub mod Submissions
use dance_sync_back_end.Base.{
  ℕ, Bool, true, false, not, ◌&&◌, ◌||◌, Option, none, some, Text, ◌==◌, get_or, ltb, leb, is_some,
  if◌then◌else◌, find,
}
use dance_sync_back_end.Errors.{
  Result, ok, err, throw, room_not_found, invalid_message, word_race_not_active,
  word_round_not_open, ◌>>=◌,
}
use dance_sync_back_end.Model.{
  Room, WordRace, WordRound, SubmitWordOutcome, word_won, word_late, word_incorrect, word_expired,
  is_battling, is_opened, is_expired, Wire, string,
}
use dance_sync_back_end.Identity.{Unicode}
use dance_sync_back_end.WordRaceService.{
  PlanWordRaceOptions, plan, judge, WordJudgement, correct, incorrect, expired,
}
use dance_sync_back_end.RoomRepository.{Rooms, find_by_code}
use dance_sync_back_end.WordRaceRepository.{
  Races, ClaimRoundResult, claimed, unclaimed, find_round, save_race, find_race, delete_race,
  open_round, claim_round, expire_round,
}
use dance_sync_back_end.UseCases.{or_throw}

pub data OpenWordRoundOutput : Type 0 where
  round_opened : WordRound → WordRace → OpenWordRoundOutput
  battle_over not_scheduled : OpenWordRoundOutput

pub data ExpireWordRoundOutput : Type 0 where
  round_expired : WordRound → WordRace → ExpireWordRoundOutput
  not_expired : Option WordRound → ExpireWordRoundOutput

pub record SubmitWordOutput : Type 0 where
  pub outcome : SubmitWordOutcome
  pub round : WordRound
  pub race : WordRace

-- room.status === "battling" && room.battle?.id === race.battleId
abbrev pub is_in_battle : Room → WordRace → Bool
is_in_battle room race = elim room.battle [
  | none ↦ false
  | some battle ↦ is_battling room.status && (battle.id == race.battle_id)
]

abbrev pub opened_in : WordRace → Option WordRound → OpenWordRoundOutput
opened_in race none = not_scheduled
opened_in race (some round) = round_opened round race

-- What the store answered to an expiry, and the race that it has then.
abbrev pub expiry_answer : Text → Option WordRound → Option WordRace → ExpireWordRoundOutput
expiry_answer round_id settled none = not_expired none
expiry_answer round_id none (some race) = not_expired (find_round race.rounds round_id)
expiry_answer round_id (some round) (some race) = round_expired round race

-- What the store answered to a claim.
abbrev pub claim_outcome :
    WordRace → ℕ → Option WordRace → ClaimRoundResult → Result SubmitWordOutput
claim_outcome race now updated (unclaimed none) = throw word_race_not_active
claim_outcome race now updated (claimed round) =
    ok (record { outcome = word_won; round = round; race = get_or updated race })
claim_outcome race now updated (unclaimed (some round)) =
    let expired_meanwhile =
      is_expired round.status || not (is_some round.winner_id) && leb round.closes_at now in
    ok (record {
      outcome = if expired_meanwhile then word_expired else word_late;
      round = round;
      race = race;
    })

-- The race and the round that a submission is about.
pub round_read : Option WordRace → Text → Result (WordRace × WordRound)
round_read none round_id = throw word_race_not_active
round_read (some race) round_id = elim (find_round race.rounds round_id) [
  | none ↦ throw word_round_not_open
  | some round ↦ ok (race, round)
]

-- typeof text === "string" && typeof roundId === "string"
pub texts_of : Wire → Wire → Result (Text × Text)
texts_of (string attempt) (string round_id) = ok (attempt, round_id)
texts_of attempt round_id = throw invalid_message

module _ (u : Unicode) where
  unfoldable pub start_word_race :
      Text → PlanWordRaceOptions → Rooms → Races → Result WordRace × Races
  start_word_race room_code o rooms races = elim (find_by_code u room_code rooms) [
    | none ↦ (throw room_not_found, races)
    | some room ↦ or_throw (plan room o) races λ race. (ok race, save_race u race races)
  ]

  unfoldable pub open_word_round : Text → Text → Rooms → Races → Races → OpenWordRoundOutput × Races
  open_word_round room_code round_id rooms earlier races = elim (find_race u room_code earlier) [
    | none ↦ (not_scheduled, races)
    | some race ↦ elim (find_by_code u room_code rooms) [
      | none ↦ (battle_over, races)
      | some room ↦
          let (round, after) = open_round u room_code round_id races in
          if is_in_battle room race then (opened_in race round, after) else (battle_over, races)
    ]
  ]

  -- The attempt that was judged on the round read earlier, and then the claim.
  unfoldable pub answer :
      Text
      → Text
      → Text
      → ℕ
      → WordRace
      → WordRound
      → WordJudgement
      → Races
      → (Races → Races)
      → Result SubmitWordOutput × Races
  answer room_code round_id player_id now race round incorrect races meanwhile =
      (ok (record { outcome = word_incorrect; round = round; race = race }), races)
  answer room_code round_id player_id now race round expired races meanwhile =
      (ok (record { outcome = word_expired; round = round; race = race }), races)
  answer room_code round_id player_id now race round correct races meanwhile =
      let (claim, after) = claim_round u room_code round_id player_id now races in
      (claim_outcome race now (find_race u room_code (meanwhile after)) claim, after)

  unfoldable pub submit_word :
      Text
      → Text
      → Wire
      → Wire
      → ℕ
      → Races
      → Races
      → (Races → Races)
      → Result SubmitWordOutput × Races
  unfolding texts_of round_read answer
  submit_word room_code player_id wanted_id attempt now earlier races meanwhile =
      or_throw (texts_of attempt wanted_id) races λ (said, round_id).
        or_throw (round_read (find_race u room_code earlier) round_id) races λ (race, round).
          or_throw (judge u round race.participant_ids player_id said now) races
            λ verdict. answer room_code round_id player_id now race round verdict races meanwhile

  unfoldable pub expire_word_round :
      Text → Text → ℕ → Races → (Races → Races) → ExpireWordRoundOutput × Races
  expire_word_round room_code round_id now races meanwhile =
      let (gone, after) = expire_round u room_code round_id now races in
      (expiry_answer round_id gone (find_race u room_code (meanwhile after)), after)

  unfoldable pub get_active_word_round : Text → ℕ → Races → Option (WordRace × WordRound)
  get_active_word_round room_code now races = elim (find_race u room_code races) [
    | none ↦ none
    | some race ↦
        elim (find (λ (r : WordRound). is_opened r.status && ltb now r.closes_at) race.rounds) [
          | none ↦ none
          | some round ↦ some (race, round)
        ]
  ]

  unfoldable pub stop_word_race : Text → Races → Races
  stop_word_race room_code races = delete_race u room_code races
