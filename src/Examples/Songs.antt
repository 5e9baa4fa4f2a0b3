-- ===== src/Examples/Songs.antt =====
-- The challenge for the song.
use dance_sync_back_end.Base.{
  ◌≡◌, ◌≤◌, refl, ◌⊎◌, none, some, [], ◌∷◌, List, text, Text, length, text_discrete,
}
use dance_sync_back_end.Errors.{ok}
use dance_sync_back_end.Model.{timeout}
use dance_sync_back_end.SongSelectionService.{RandomIndex, assign_fallback_chooser, require_typing}
use dance_sync_back_end.SongSelectionService.Fallback.{
  present_of, chosen_by, IsFair, assign_fallback_chooser-IsFair,
}
use dance_sync_back_end.SongSelectionService.Attempts.{submit, judge_attempt}
use dance_sync_back_end.SongSelectionService.Winners.{Attempt, acceptances}
use dance_sync_back_end.SongSelectionService.Contests.{IsContest, acceptances-IsContest}
use dance_sync_back_end.Identity.{normalize_attempt, trim}
use dance_sync_back_end.Examples.Samples.{plain, ana, bea, challenge, lobby}

abbrev first : RandomIndex
first n = 0

assign_fallback_chooser-IsFair_example :
    ((length (present_of lobby challenge) ≡ 0)
      × (assign_fallback_chooser lobby challenge timeout first 30
          ≡ ok (record lobby { song_selection = none })))
    ⊎ ((id : Text) × IsFair lobby challenge id
        × (assign_fallback_chooser lobby challenge timeout first 30
            ≡ ok (record lobby { song_selection = some (chosen_by challenge id timeout 30) })))
assign_fallback_chooser-IsFair_example =
    assign_fallback_chooser-IsFair lobby challenge timeout first 30 (λ n h. h)

-- ana gets the choice, since bea has failed.
ana_chooses :
    assign_fallback_chooser lobby challenge timeout first 30
    ≡ ok (record lobby { song_selection = some (chosen_by challenge ana timeout 30) })
unfolding assign_fallback_chooser text_discrete
ana_chooses = refl

abbrev attempts : List Attempt
attempts =
    record { player_id = bea; attempt = text "vamos"; now = 20; random = first }
    ∷ record { player_id = ana; attempt = text "vamos "; now = 21; random = first }
    ∷ record { player_id = ana; attempt = text "vamos"; now = 22; random = first }
    ∷ []

acceptances-IsContest_example :
    (acceptances plain attempts lobby ≤ 1) × IsContest plain attempts lobby
acceptances-IsContest_example = acceptances-IsContest plain attempts lobby

ana_wins : acceptances plain attempts lobby ≡ 1
unfolding acceptances submit judge_attempt normalize_attempt trim require_typing text_discrete
ana_wins = refl
