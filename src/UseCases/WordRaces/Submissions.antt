-- ===== src/UseCases/WordRaces/Submissions.antt =====
-- The answers of SubmitWord.ts.
use dance_sync_back_end.Base.{
  ℕ, ◌<◌, ◌≡◌, refl, true, false, lookup, is_some, some, none, Option, Text, ◌==◌, includes, insert,
  subst, arith, inl, inr, Bool-cases,
}
use dance_sync_back_end.Errors.{ok, Result-cases}
use dance_sync_back_end.Model.{
  WordRace, WordRound, WordRoundStatus, word_won, string, opened, won, is_opened,
}
use dance_sync_back_end.Identity.{Unicode, normalize_attempt}
use dance_sync_back_end.WordRaceService.{WordJudgement, correct, incorrect, expired, judge}
use dance_sync_back_end.WordRaceRepository.{
  Races, ClaimRoundResult, claimed, unclaimed, with_round, count_win, key, claim_round, find_race,
  is_claimable, find_round,
}
use dance_sync_back_end.WordRaceRepository.FoundRounds.{round_in, round_in-insert_self}
use dance_sync_back_end.WordRaceRepository.Settling.{found_round-cases}
use dance_sync_back_end.UseCases.WordRaces.{
  SubmitWordOutput, round_read, answer, submit_word, claim_outcome,
}

-- The player takes part and typed the word of the round, which was open to attempts.
abbrev pub IsRightAttempt : Unicode → WordRace → WordRound → Text → Text → Type 0
IsRightAttempt u race round player_id attempt =
    (includes race.participant_ids player_id ≡ true)
    × ((u.to_lower_case (normalize_attempt u attempt) == round.word) ≡ true)

-- What a won submission changes: the round that was stored before was open, in time and had no
-- winner, and it is stored now as won by this player.
abbrev pub IsWonBy : Text → Text → Text → ℕ → WordRound → Races → Races → Type 0
IsWonBy k round_id player_id now round before after =
    (old : WordRound) × (round_in k round_id before ≡ some old)
    × (old.status ≡ opened)
    × (old.winner_id ≡ none)
    × (now < old.closes_at)
    × (round ≡ record old { status = won; winner_id = some player_id })
    × (round_in k round_id after ≡ some round)

opened_status : (s : WordRoundStatus) → is_opened s ≡ true → s ≡ opened
opened_status WordRoundStatus.scheduled h = absurd (ground arith)
opened_status opened h = refl
opened_status WordRoundStatus.won h = absurd (ground arith)
opened_status WordRoundStatus.expired h = absurd (ground arith)

unwon : (w : Option Text) → is_some w ≡ false → w ≡ none
unwon none h = refl
unwon (some t) h = absurd (ground arith)

module _ (u : Unicode) where
  round_in-found :
      (code id : Text) (races : Races) (race : WordRace) (round : WordRound)
      → lookup (key u code) races ≡ some race
      → find_round race.rounds id ≡ some round
      → round_in (key u code) id races ≡ some round
  round_in-found code id races race round e f = ground arith

  judge_correct :
      (round : WordRound) (race : WordRace) (player_id attempt : Text) (now : ℕ)
      → judge u round race.participant_ids player_id attempt now ≡ ok correct
      → IsRightAttempt u race round player_id attempt
  unfolding judge
  judge_correct round race player_id attempt now e = ground arith

  claim-IsWonBy :
      (code id player_id : Text) (now : ℕ) (races : Races) (r : WordRound)
      → (claim_round u code id player_id now races).0 ≡ claimed r
      → IsWonBy (key u code) id player_id now r races (claim_round u code id player_id now races).1
  unfolding claim_round
  claim-IsWonBy code id player_id now races r = elim (found_round-cases u code id races) [
    | inl e ↦ rw (e, claim_round) λ c. absurd (ground arith)
    | inr (race, round, e, f, g) ↦ elim (Bool-cases (is_claimable round now)) [
      | inl yes_now ↦
          let next : WordRound = record round { status = won; winner_id = some player_id } in
          let scored : WordRace = record (with_round race next) {
            wins = count_win player_id race.wins;
          } in
          rw (g, yes_now, claim_round)
            λ c.
              subst
                (λ x.
                  IsWonBy (key u code) id player_id now x races (insert (key u code) scored races))
                (ground arith)
                (
                  round,
                  round_in-found code id races race round e f,
                  opened_status round.status (ground (arith, yes_now)),
                  unwon round.winner_id (ground (arith, yes_now)),
                  ground (arith, yes_now),
                  refl,
                  round_in-insert_self (key u code) id races race scored round next e f refl refl,
                )
      | inr not_now ↦ rw (g, not_now, claim_round) λ c. absurd (ground arith)
    ]
  ]

  -- The claim's answer is "won" only if the claim succeeded.
  claim_outcome-claimed :
      (race : WordRace) (now : ℕ) (updated : Option WordRace) (c : ClaimRoundResult)
      (out : SubmitWordOutput)
      → claim_outcome race now updated c ≡ ok out
      → out.outcome ≡ word_won
      → c ≡ claimed out.round
  claim_outcome-claimed race now updated (claimed round) out e w = ground arith
  claim_outcome-claimed race now updated (unclaimed none) out e w = absurd (ground arith)
  claim_outcome-claimed race now updated (unclaimed (some round)) out e w = absurd (ground arith)

  answer-IsWonBy :
      (code id player_id : Text) (now : ℕ) (race : WordRace) (round : WordRound)
      (verdict : WordJudgement) (races : Races) (meanwhile : Races → Races) (out : SubmitWordOutput)
      → (answer u code id player_id now race round verdict races meanwhile).0 ≡ ok out
      → out.outcome ≡ word_won
      → (verdict ≡ correct)
        × IsWonBy
            (key u code)
            id
            player_id
            now
            out.round
            races
            (answer u code id player_id now race round verdict races meanwhile).1
  unfolding answer
  answer-IsWonBy code id player_id now race round incorrect races meanwhile out e w =
      absurd (ground arith)
  answer-IsWonBy code id player_id now race round expired races meanwhile out e w =
      absurd (ground arith)
  answer-IsWonBy code id player_id now race round correct races meanwhile out e w = (
    refl,
    claim-IsWonBy code id player_id now races out.round (
        claim_outcome-claimed race now
          (find_race u code (meanwhile (claim_round u code id player_id now races).1)) _ out e w),
  )

  -- A submission that is answered with "won" was right when it was judged: the race and the round
  -- read earlier exist, the player takes part in the race and the text is the round's word; and
  -- whatever others did since, the round that is stored when it is claimed is open, in time and has
  -- no winner, and it is stored then, and answered, as won by this player and otherwise unchanged.
  pub submit_word-IsWonBy :
      (code player_id id attempt : Text) (now : ℕ) (earlier races : Races)
      (meanwhile : Races → Races) (out : SubmitWordOutput)
      → (submit_word u code player_id (string id) (string attempt) now earlier races meanwhile).0
        ≡ ok out
      → out.outcome ≡ word_won
      → (race : WordRace) × (round : WordRound) × (round_read (find_race u code earlier) id
          ≡ ok (race, round))
        × IsRightAttempt u race round player_id attempt
        × IsWonBy
            (key u code)
            id
            player_id
            now
            out.round
            races
            (submit_word u code player_id
              (string id)
              (string attempt)
              now
              earlier
              races
              meanwhile).1
  unfolding submit_word
  submit_word-IsWonBy code player_id id attempt now earlier races meanwhile out =
      elim (Result-cases (round_read (find_race u code earlier) id)) [
        | inl (f, e) ↦ rw (e, submit_word) λ g w. absurd (ground arith)
        | inr ((race, round), e) ↦
            elim (Result-cases (judge u round race.participant_ids player_id attempt now)) [
              | inl (f, j) ↦ rw (e, j, submit_word) λ g w. absurd (ground arith)
              | inr (verdict, j) ↦
                  rw (e, j, submit_word)
                    λ g w.
                      let (right, stored) =
                        answer-IsWonBy code id player_id now race round verdict races meanwhile out
                          g w in
                      (
                        race,
                        round,
                        refl,
                        judge_correct round race player_id attempt now (ground arith),
                        stored,
                      )
            ]
      ]
