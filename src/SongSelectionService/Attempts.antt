-- ===== src/SongSelectionService/Attempts.antt =====
-- `submit` and `expire` of SongSelectionService.ts: the typing phase.
use dance_sync_back_end.Base.{
  ℕ, Bool, not, ◌||◌, Option, none, some, [], ◌∷◌, ◌++◌, Text, ◌==◌, leb, if◌then◌else◌, filter,
  all, includes,
}
use dance_sync_back_end.Errors.{
  Result, ok, throw_if, ◌>>=◌, ◌>>◌, not_challenge_participant, player_not_in_room,
  attempt_already_used,
}
use dance_sync_back_end.Model.{Room, SongSelection, typed, timeout, all_failed, is_typing}
use dance_sync_back_end.Identity.{Unicode, normalize_attempt}
use dance_sync_back_end.SongSelectionService.{
  RandomIndex, SubmitOutcome, accepted, incorrect, expired, is_present, require_typing, hand_choice,
  assign_fallback_chooser,
}

abbrev pub add_failed : SongSelection → Text → SongSelection
add_failed selection player_id = record selection {
  failed_ids = selection.failed_ids ++ player_id ∷ [];
}

-- Every participant who is still in the room has failed.
abbrev pub everyone_failed : Room → SongSelection → Bool
everyone_failed room selection =
    all (λ id. includes selection.failed_ids id)
      (filter (is_present room) selection.participant_ids)

with_outcome : Result Room → SubmitOutcome → Result (Room × SubmitOutcome)
with_outcome r outcome = do room ← r; ok (room, outcome)

misspelled : Room → SongSelection → Text → RandomIndex → ℕ → Result (Room × SubmitOutcome)
unfolding with_outcome
misspelled room selection player_id random now =
    let failed = add_failed selection player_id in
    if everyone_failed room failed
    then with_outcome (assign_fallback_chooser room failed all_failed random now) incorrect
    else ok (record room { song_selection = some failed }, incorrect)

module _ (u : Unicode) where
  -- The text against the phrase.
  unfoldable pub judge_attempt :
      Room → SongSelection → Text → Text → ℕ → RandomIndex → Result (Room × SubmitOutcome)
  unfolding misspelled
  judge_attempt room selection player_id attempt now random =
      if normalize_attempt u attempt == selection.challenge.phrase
      then ok (
        record room { song_selection = some (hand_choice selection player_id typed now) },
        accepted,
      )
      else misspelled room selection player_id random now

  unfoldable pub submit : Room → Text → Text → ℕ → RandomIndex → Result (Room × SubmitOutcome)
  unfolding with_outcome judge_attempt require_typing
  submit room player_id attempt now random = do
    selection ← require_typing room
    throw_if (not (includes selection.participant_ids player_id)) not_challenge_participant
    throw_if (not (is_present room player_id)) player_not_in_room
    if leb selection.challenge.expires_at now
        then with_outcome (assign_fallback_chooser room selection timeout random now) expired
        else do
          throw_if (includes selection.failed_ids player_id) attempt_already_used
          judge_attempt room selection player_id attempt now random

-- A room, or null (`none`).
abbrev pub some_room : Result Room → Result (Option Room)
some_room r = do room ← r; ok (some room)

unfoldable pub expire : Room → Text → RandomIndex → ℕ → Result (Option Room)
expire room challenge_id random now = elim room.song_selection [
  | none ↦ ok none
  | some selection ↦
      if not (is_typing selection.phase) || not (selection.challenge.id == challenge_id)
      then ok none
      else some_room (assign_fallback_chooser room selection timeout random now)
]
