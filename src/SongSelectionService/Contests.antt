-- ===== src/SongSelectionService/Contests.antt =====
-- Who wins the challenge of SongSelectionService.ts.
use dance_sync_back_end.Base.{
  ◌≤◌, ◌<◌, ◌≡◌, refl, true, false, not, ◌⊎◌, inl, inr, Bool-cases, some, List, [], ◌∷◌, ◌==◌,
  includes, arith, leb, Option-cases,
}
use dance_sync_back_end.Errors.{
  Result, ok, err, Ensures, Ensures-throw_if, Ensures-if, Ensures-bind, ◌>>=◌,
}
use dance_sync_back_end.Model.{
  Room, SongSelection, SongSelectionPhase, typing, is_typing, choosing, done, typed,
}
use dance_sync_back_end.Identity.{Unicode, normalize_attempt}
use dance_sync_back_end.SongSelectionService.{
  SubmitOutcome, accepted, incorrect, expired, is_present, require_typing,
}
use dance_sync_back_end.SongSelectionService.Attempts.{
  submit, judge_attempt, everyone_failed, add_failed,
}
use dance_sync_back_end.SongSelectionService.Fallback.{chosen_by}
use dance_sync_back_end.SongSelectionService.Winners.{
  Attempt, stored_after, accepted_in, is_accepted, submitted, acceptances, acceptances-le-contested,
  acceptances-le_one,
}

-- The attempt wins the challenge of the room: the phrase is being typed, the player takes part, is in
-- the room and has not failed, there is time left, and the text is the phrase.
pub record IsRight (u : Unicode) (room : Room) (selection : SongSelection) (a : Attempt)
    : Type 0 where
  pub running : room.song_selection ≡ some selection
  pub open_phase : selection.phase ≡ typing
  pub took_part : includes selection.participant_ids a.player_id ≡ true
  pub here : is_present room a.player_id ≡ true
  pub in_time : a.now < selection.challenge.expires_at
  pub unfailed : includes selection.failed_ids a.player_id ≡ false
  pub correct : (normalize_attempt u a.attempt == selection.challenge.phrase) ≡ true

typing_phase : (p : SongSelectionPhase) → is_typing p ≡ true → p ≡ typing
typing_phase typing h = refl
typing_phase choosing h = absurd (ground arith)
typing_phase done h = absurd (ground arith)

require_typing-ok :
    (room : Room) (selection : SongSelection)
    → require_typing room ≡ ok selection
    → (room.song_selection ≡ some selection) × (selection.phase ≡ typing)
unfolding require_typing
require_typing-ok room selection e = elim (Option-cases room.song_selection) [
  | inl n ↦ absurd (ground (arith, e, n))
  | inr (s, f) ↦ elim (Bool-cases (is_typing s.phase)) [
    | inl t ↦
        let p = typing_phase s.phase t in
        let same : s ≡ selection = ground (arith, e, f, t) in
        (ground (arith, f, same), ground (arith, p, same))
    | inr t ↦ absurd (ground (arith, e, f, t))
  ]
]

module _ (u : Unicode) where
  -- Some challenge of the room is won by the attempt.
  abbrev pub Wins : Room → Attempt → Type 0
  Wins room a = (selection : SongSelection) × IsRight u room selection a

  abbrev Deserved : Room → Attempt → Room × SubmitOutcome → Type 0
  Deserved room a (next, outcome) = is_accepted outcome ≡ true → Wins room a

  unaccepted :
      (room : Room) (a : Attempt) (r : Result Room) (o : SubmitOutcome)
      → is_accepted o ≡ false
      → Ensures (Deserved room a) (do next ← r; ok (next, o))
  unaccepted room a (ok next) o h = λ e. absurd (ground arith)
  unaccepted room a (err e) o h = tt

  judge_attempt-Deserved :
      (room : Room) (selection : SongSelection) (a : Attempt)
      → ((normalize_attempt u a.attempt == selection.challenge.phrase) ≡ true → Wins room a)
      → Ensures
          (Deserved room a)
          (judge_attempt u room selection a.player_id a.attempt a.now a.random)
  unfolding judge_attempt
  judge_attempt-Deserved room selection a wins =
      Ensures-if (Deserved room a) (normalize_attempt u a.attempt == selection.challenge.phrase) _ _
        (λ same. λ e. wins same)
        λ _.
          Ensures-if (Deserved room a) (everyone_failed room (add_failed selection a.player_id)) _ _
            (λ _. unaccepted room a _ incorrect refl) (λ _. λ e. absurd (ground arith))

  -- Only a right attempt is accepted.
  submit-Deserved : (room : Room) (a : Attempt) → Ensures (Deserved room a) (submitted u room a)
  unfolding submit
  submit-Deserved room a = Ensures-bind (Deserved room a) (require_typing room) _ λ selection e.
      Ensures-throw_if (Deserved room a) (not (includes selection.participant_ids a.player_id)) _ _
        λ part. Ensures-throw_if (Deserved room a) (not (is_present room a.player_id)) _ _ λ there.
          Ensures-if (Deserved room a) (leb selection.challenge.expires_at a.now) _ _
            (λ _. unaccepted room a _ expired refl)
            λ time.
              Ensures-throw_if (Deserved room a) (includes selection.failed_ids a.player_id) _ _
                λ fresh. judge_attempt-Deserved room selection a λ same.
                  let (running, phase) = require_typing-ok room selection e in
                  (
                    selection,
                    record {
                      running = running;
                      open_phase = phase;
                      took_part = ground (arith, part);
                      here = ground (arith, there);
                      in_time = ground (arith, time);
                      unfailed = fresh;
                      correct = same;
                    },
                  )

  accepted-Wins :
      (room : Room) (a : Attempt) (r : Result (Room × SubmitOutcome))
      → Ensures (Deserved room a) r
      → accepted_in r ≡ true
      → Wins room a
  accepted-Wins room a (ok (next, outcome)) h e = h e
  accepted-Wins room a (err f) h e = absurd (ground arith)

  -- The room with the choice handed to the player.
  abbrev pub won_by : Room → SongSelection → Attempt → Room
  won_by room selection a = record room {
    song_selection = some (chosen_by selection a.player_id typed a.now);
  }

  right-accepted :
      (room : Room) (selection : SongSelection) (a : Attempt)
      → IsRight u room selection a
      → submitted u room a ≡ ok (won_by room selection a, accepted)
  unfolding submit judge_attempt require_typing
  right-accepted room selection a r =
      let late : leb selection.challenge.expires_at a.now ≡ false = ground (arith, r.in_time) in
      let running : require_typing room ≡ ok selection = rw (r.running, r.open_phase) refl in
      rw (running, r.took_part, r.here, late, r.unfailed, r.correct, submit, judge_attempt) refl

  -- The verdict on the first of the submissions: a right one is accepted, the room is stored with the
  -- choice handed to the player, and none of the others is accepted; and a wrong one is not.
  abbrev pub Verdict : Room → Attempt → List Attempt → Type 0
  Verdict room a others =
      ((selection : SongSelection) × IsRight u room selection a
        × (submitted u room a ≡ ok (won_by room selection a, accepted))
        × (acceptances u others (won_by room selection a) ≡ 0))
      ⊎ (¬ Wins room a × (accepted_in (submitted u room a) ≡ false))

  -- So it is for each of the submissions in turn.
  abbrev pub IsContest : List Attempt → Room → Type 0
  IsContest [] room = Unit
  IsContest (a ∷ others) room =
      Verdict room a others × IsContest others (stored_after room (submitted u room a))

  verdict : (room : Room) (a : Attempt) (others : List Attempt) → Verdict room a others
  verdict room a others = elim (Bool-cases (accepted_in (submitted u room a))) [
    | inl yes_now ↦
        let (selection, r) =
          accepted-Wins room a (submitted u room a) (submit-Deserved room a) yes_now in
        inl (
          selection,
          r,
          right-accepted room selection a r,
          omega (arith, acceptances-le-contested u others (won_by room selection a)),
        )
    | inr not_now ↦
        inr (λ (selection, r). ground (arith, not_now, right-accepted room selection a r), not_now)
  ]

  all_verdicts : (attempts : List Attempt) (room : Room) → IsContest attempts room
  all_verdicts [] room = tt
  all_verdicts (a ∷ others) room =
      (verdict room a others, all_verdicts others (stored_after room (submitted u room a)))

  -- However the submissions of the players follow each other, at most one of them is accepted, and
  -- it is the first right one: each that is right when it is submitted, which is that the phrase is
  -- being typed, the player takes part, is in the room and has not failed, there is time left and
  -- the normalized text is the phrase, is accepted, hands the player the choice with a fresh
  -- deadline and leaves none to be accepted after it; and each that is not right is not accepted.
  pub acceptances-IsContest :
      (attempts : List Attempt) (room : Room)
      → (acceptances u attempts room ≤ 1) × IsContest attempts room
  acceptances-IsContest attempts room =
      (acceptances-le_one u attempts room, all_verdicts attempts room)
