-- ===== src/Server/RoundEnds/Once.antt =====
-- How often the end of a word round is announced.
use dance_sync_back_end.Base.{
  one_if, ℕ, ◌+◌, ◌≤◌, ◌≡◌, refl, subst, true, ◌&&◌, some, List, [], ◌∷◌, Text, ◌==◌, eq→path,
  lookup, arith, inl, inr, Option-cases, Bool-cases,
}
use dance_sync_back_end.Errors.{Result-cases}
use dance_sync_back_end.Model.{
  WordRound, string, SubmitWordOutcome, word_won, word_late, word_incorrect, word_expired,
}
use dance_sync_back_end.Identity.{Unicode}
use dance_sync_back_end.WordRaceService.{correct, incorrect, expired, judge}
use dance_sync_back_end.WordRaceRepository.{Races, key, find_race}
use dance_sync_back_end.WordRaceRepository.FoundRounds.{round_in, find_round-id}
use dance_sync_back_end.WordRaceRepository.Settling.{RaceStep, live, live-le, step-live, take_step}
use dance_sync_back_end.UseCases.WordRaces.{
  open_word_round, submit_word, stop_word_race, round_read, answer,
}
use dance_sync_back_end.UseCases.WordRaces.Submissions.{IsWonBy, submit_word-IsWonBy}
use dance_sync_back_end.WordRaceScheduler.{opens, expires, run_task, stop}
use dance_sync_back_end.SocketHandlers.Hub.{Hub, Moment}
use dance_sync_back_end.SocketHandlers.Events.{is_won, submitted_word}
use dance_sync_back_end.Server.RoundEnds.{
  RaceEvent, runs, submits, stops, changes_rooms, ends, happen, happen_all, won_word-ends,
}
use dance_sync_back_end.Server.RoundEnds.Timers.{
  delete-live, open_word_round-live, Uses, opens-Uses, expires-Uses,
}
use dance_sync_back_end.Server.RoundEnds.Keyed.{
  IsKeyed, claim_round-IsKeyed, delete_race-IsKeyed, open_word_round-IsKeyed,
}

module _ (u : Unicode) where
  -- A submission leaves no more rounds alive, whatever it is answered.
  submit_word-live :
      (code player round_id attempt : Text) (now : ℕ) (earlier races : Races)
      (meanwhile : Races → Races) (k id : Text)
      → IsKeyed u races
      → let after =
          (submit_word u code player
            (string round_id)
            (string attempt)
            now
            earlier
            races
            meanwhile).1 in
        (live (round_in k id after) ≤ live (round_in k id races)) × IsKeyed u after
  unfolding submit_word answer take_step
  submit_word-live code player round_id attempt now earlier races meanwhile k id keyed =
      elim (Result-cases (round_read (find_race u code earlier) round_id)) [
        | inl (f, e) ↦ rw (e, submit_word) (omega arith, keyed)
        | inr ((race, round), e) ↦
            elim (Result-cases (judge u round race.participant_ids player attempt now)) [
              | inl (f, j) ↦ rw (e, j, submit_word) (omega arith, keyed)
              | inr (correct, j) ↦
                  rw (e, j, submit_word)
                    (
                      omega (
                        arith,
                        step-live u (RaceStep.claims code round_id player now) races k id,
                      ),
                      claim_round-IsKeyed u code round_id races keyed player now,
                    )
              | inr (incorrect, j) ↦ rw (e, j, submit_word) (omega arith, keyed)
              | inr (expired, j) ↦ rw (e, j, submit_word) (omega arith, keyed)
            ]
      ]

  is_won-word_won : (m : Moment) (o : SubmitWordOutcome) → is_won u m o ≡ true → o ≡ word_won
  is_won-word_won m word_won h = refl
  is_won-word_won m word_late h = absurd (ground arith)
  is_won-word_won m word_incorrect h = absurd (ground arith)
  is_won-word_won m word_expired h = absurd (ground arith)

  round_in-id :
      (k id : Text) (races : Races) (round : WordRound)
      → round_in k id races ≡ some round
      → round.id ≡ id
  round_in-id k id races round e = elim (Option-cases (lookup k races)) [
    | inl f ↦ absurd (ground (arith, e, f))
    | inr (race, f) ↦ find_round-id race.rounds id round (ground (arith, e, f))
  ]

  -- A round that was won was alive, and is not any more.
  IsWonBy-live :
      (k round_id player : Text) (now : ℕ) (round : WordRound) (before after : Races)
      → IsWonBy k round_id player now round before after
      → (live (round_in k round_id before) ≡ 1)
        × (live (round_in k round_id after) ≡ 0)
        × (round.id ≡ round_id)
  IsWonBy-live k round_id player now round before after (old, was, status, free, time, next, kept) =
      (
        ground (arith, was, status),
        ground (arith, kept, next),
        round_in-id k round_id after round kept,
      )

  won_once :
      (k id j round_id named : Text) (before after : Races) (n e : ℕ)
      → live (round_in k id after) ≤ live (round_in k id before)
      → live (round_in j round_id before) ≡ 1
      → live (round_in j round_id after) ≡ 0
      → named ≡ round_id
      → n ≡ one_if ((j == k) && (named == id)) + e
      → n + live (round_in k id after) ≤ e + live (round_in k id before)
  won_once k id j round_id named before after n e alive was gone same told =
      elim (Bool-cases ((j == k) && (named == id))) [
        | inr other ↦ ground (arith, alive, told, other)
        | inl hit ↦
            let p : j ≡ k = eq→path j k (ground (arith, hit)) in
            let q : named ≡ id = eq→path named id (ground (arith, hit)) in
            let r : round_id ≡ id = ground (arith, q, same) in
            let was' : live (round_in k id before) ≡ 1 =
              subst (λ x. live (round_in x id before) ≡ 1) p
                (subst (λ x. live (round_in j x before) ≡ 1) r was) in
            let gone' : live (round_in k id after) ≡ 0 =
              subst (λ x. live (round_in x id after) ≡ 0) p
                (subst (λ x. live (round_in j x after) ≡ 0) r gone) in
            let said : n ≡ 1 + e = rw hit at told in omega (arith, was', gone', said)
      ]

  submits-Uses :
      (m : Moment) (k id code player round_id attempt : Text) (earlier : Races)
      (meanwhile : Races → Races) (hub : Hub)
      → IsKeyed u hub.races
      → Uses u k id hub (happen u m (submits code player round_id attempt earlier meanwhile) hub)
  unfolding happen submitted_word
  submits-Uses m k id code player round_id attempt earlier meanwhile hub keyed =
      let (alive, later) =
        submit_word-live code player round_id attempt m.now earlier hub.races meanwhile k id
          keyed in
      let after =
        (submit_word u code player (string round_id) (string attempt) m.now earlier hub.races
          meanwhile).1 in
      elim (Result-cases
        (submit_word u code player (string round_id) (string attempt) m.now earlier hub.races
          meanwhile).0) [
            | inl (f, e) ↦ rw (e, happen) (omega (arith, alive), later)
            | inr (out, e) ↦ elim (Bool-cases (is_won u m out.outcome)) [
              | inr other ↦ rw (e, other, happen) (omega (arith, alive), later)
              | inl won_now ↦
                  let (_, _, _, _, by) =
                    submit_word-IsWonBy u code player round_id attempt m.now earlier hub.races
                      meanwhile out e (is_won-word_won m out.outcome won_now) in
                  let (was, gone, same) =
                    IsWonBy-live (key u code) round_id player m.now out.round hub.races after by in
                  let (told, kept) =
                    won_word-ends u m code player out (record hub { races = after }) k id in
                  rw (e, won_now, kept, happen)
                    (
                      won_once k id (key u code) round_id out.round.id hub.races after _ _ alive was
                          gone same told,
                      later,
                    )
            ]
          ]

  happen-Uses :
      (m : Moment) (k id : Text) (e : RaceEvent) (hub : Hub)
      → IsKeyed u hub.races
      → Uses u k id hub (happen u m e hub)
  unfolding happen run_task stop stop_word_race
  happen-Uses m k id (runs (opens code round_id)) hub keyed =
      opens-Uses u k id code round_id m.now
        (open_word_round u code round_id hub.rooms hub.races hub.races).0
        (open_word_round u code round_id hub.rooms hub.races hub.races).1 hub.scheduler hub
        (open_word_round-live u k id code round_id hub.rooms hub.races)
        (open_word_round-IsKeyed u code round_id hub.races keyed hub.rooms)
  happen-Uses m k id (runs (expires code round_id)) hub keyed =
      expires-Uses u k id code round_id m.now hub.scheduler hub keyed
  happen-Uses m k id (submits code player round_id attempt earlier meanwhile) hub keyed =
      submits-Uses m k id code player round_id attempt earlier meanwhile hub keyed
  happen-Uses m k id (stops code) hub keyed = (
    omega (arith, delete-live u code k id hub.races),
    delete_race-IsKeyed u code id hub.races keyed,
  )
  happen-Uses m k id (changes_rooms rooms) hub keyed = (omega arith, keyed)

  happen_all-le-live :
      (k id : Text) (events : List (Moment × RaceEvent)) (hub : Hub)
      → IsKeyed u hub.races
      → ends u k id (happen_all u events hub).effects
        ≤ ends u k id hub.effects + live (round_in k id hub.races)
  unfolding happen_all
  happen_all-le-live k id [] hub keyed = omega arith
  happen_all-le-live k id ((m, e) ∷ events) hub keyed =
      let (used, later) = happen-Uses m k id e hub keyed in
      omega (arith, used, happen_all-le-live k id events (happen u m e hub) later)

  -- When every race is stored under the key of its room, then however the timers of the races run,
  -- on time, late or more than once, the players submit, races are stopped and rooms change, at
  -- most one word:round-ended is emitted to a room for a round: for its winner or because it
  -- expired.
  pub happen_all-le_one :
      (k id : Text) (events : List (Moment × RaceEvent)) (hub : Hub)
      → IsKeyed u hub.races
      → ends u k id (happen_all u events hub).effects ≤ ends u k id hub.effects + 1
  happen_all-le_one k id events hub keyed =
      omega (arith, happen_all-le-live k id events hub keyed, live-le u (round_in k id hub.races))
