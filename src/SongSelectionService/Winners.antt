-- ===== src/SongSelectionService/Winners.antt =====
-- `submit` of SongSelectionService.ts, called again and again.
use dance_sync_back_end.Base.{
  ℕ, ◌+◌, ◌≤◌, ◌≡◌, refl, Bool, true, false, not, inl, inr, Bool-cases, none, some, List, [], ◌∷◌,
  Text, ◌==◌, one_if, includes, arith, leb,
}
use dance_sync_back_end.Errors.{
  Result, is_ok, ok, err, Ensures, Ensures-throw_if, Ensures-if, Ensures-bind, ◌>>=◌,
}
use dance_sync_back_end.Model.{Room, SongSelection, is_typing}
use dance_sync_back_end.Identity.{Unicode, normalize_attempt}
use dance_sync_back_end.SongSelectionService.{
  RandomIndex, SubmitOutcome, accepted, incorrect, expired, is_present, require_typing,
}
use dance_sync_back_end.SongSelectionService.Attempts.{
  submit, judge_attempt, everyone_failed, add_failed,
}

abbrev pub is_accepted : SubmitOutcome → Bool
is_accepted accepted = true
is_accepted _ = false

-- The room has a challenge that can still be won.
abbrev pub is_contested : Room → Bool
is_contested room = elim room.song_selection [
  | none ↦ false
  | some selection ↦ is_typing selection.phase
]

pub record Attempt : Type 0 where
  pub player_id : Text
  pub attempt : Text
  pub now : ℕ
  pub random : RandomIndex

-- The room that is stored after a submission: a refused one stores nothing.
abbrev pub stored_after : Room → Result (Room × SubmitOutcome) → Room
stored_after room (err e) = room
stored_after room (ok (next, outcome)) = next

abbrev pub accepted_in : Result (Room × SubmitOutcome) → Bool
accepted_in (err e) = false
accepted_in (ok (next, outcome)) = is_accepted outcome

-- An accepted submission ends the contest.
abbrev Once : Room × SubmitOutcome → Type 0
Once (next, outcome) = is_accepted outcome ≡ true → is_contested next ≡ false

resolved-Once :
    (r : Result Room) (o : SubmitOutcome)
    → is_accepted o ≡ false
    → Ensures Once (do room ← r; ok (room, o))
resolved-Once (ok room) o h = λ e. cc
resolved-Once (err e) o h = tt

require_typing-is_contested :
    (room : Room) → is_contested room ≡ false → is_ok (require_typing room) ≡ false
unfolding require_typing
require_typing-is_contested room h = ground arith

module _ (u : Unicode) where
  abbrev pub submitted : Room → Attempt → Result (Room × SubmitOutcome)
  submitted room a = submit u room a.player_id a.attempt a.now a.random

  -- How many of the submissions are accepted.
  unfoldable pub acceptances : List Attempt → Room → ℕ
  acceptances [] room = 0
  acceptances (a ∷ attempts) room =
      one_if (accepted_in (submitted room a))
      + acceptances attempts (stored_after room (submitted room a))

  judge_attempt-Once :
      (room : Room) (selection : SongSelection) (a : Attempt)
      → Ensures Once (judge_attempt u room selection a.player_id a.attempt a.now a.random)
  unfolding judge_attempt
  judge_attempt-Once room selection a =
      Ensures-if Once (normalize_attempt u a.attempt == selection.challenge.phrase) _ _
        (λ _. λ e. refl)
        λ _.
          Ensures-if Once (everyone_failed room (add_failed selection a.player_id)) _ _
            (λ _. resolved-Once _ incorrect refl) (λ _. λ e. cc)

  submit-Once : (room : Room) (a : Attempt) → Ensures Once (submitted room a)
  unfolding submit
  submit-Once room a = Ensures-bind Once (require_typing room) _ λ selection e.
      Ensures-throw_if Once (not (includes selection.participant_ids a.player_id)) _ _ λ _.
        Ensures-throw_if Once (not (is_present room a.player_id)) _ _ λ _.
          Ensures-if Once (leb selection.challenge.expires_at a.now) _ _
            (λ _. resolved-Once _ expired refl)
            λ _.
              Ensures-throw_if Once (includes selection.failed_ids a.player_id) _ _
                λ _. judge_attempt-Once room selection a

  submit-refused :
      (room : Room) (a : Attempt) → is_contested room ≡ false → is_ok (submitted room a) ≡ false
  unfolding submit
  submit-refused room a h = ground (arith, require_typing-is_contested room h)

  submit-contested :
      (room : Room) (a : Attempt)
      → one_if (accepted_in (submitted room a))
          + one_if (is_contested (stored_after room (submitted room a)))
        ≤ one_if (is_contested room)
  submit-contested room a = elim (Bool-cases (is_contested room)) [
    | inl running ↦ rw running (once-le (submitted room a) room (submit-Once room a))
    | inr closed ↦ closed-le (submitted room a) room closed (submit-refused room a closed)
  ]
    where
      once-le :
          (r : Result (Room × SubmitOutcome)) (old : Room)
          → Ensures Once r
          → one_if (accepted_in r) + one_if (is_contested (stored_after old r)) ≤ 1
      once-le (err e) old h = ground arith
      once-le (ok (next, outcome)) old h = ground (arith, h)

      closed-le :
          (r : Result (Room × SubmitOutcome)) (old : Room)
          → is_contested old ≡ false
          → is_ok r ≡ false
          → one_if (accepted_in r) + one_if (is_contested (stored_after old r))
            ≤ one_if (is_contested old)
      closed-le (err e) old c h = ground arith
      closed-le (ok (next, outcome)) old c h = cc

  pub acceptances-le-contested :
      (attempts : List Attempt) (room : Room)
      → acceptances attempts room ≤ one_if (is_contested room)
  unfolding acceptances
  acceptances-le-contested [] room = omega arith
  acceptances-le-contested (a ∷ attempts) room = omega (
    arith,
    submit-contested room a,
    acceptances-le-contested attempts (stored_after room (submitted room a)),
  )

  -- However the submissions of the players follow each other, at most one of them is accepted.
  pub acceptances-le_one : (attempts : List Attempt) (room : Room) → acceptances attempts room ≤ 1
  acceptances-le_one attempts room = ground (arith, acceptances-le-contested attempts room)
