-- ===== src/SongSelectionService/Choices.antt =====
-- `choose`, `autoPick` and `handlePlayerLeft` of SongSelectionService.ts: the choosing phase.
use dance_sync_back_end.Base.{
  ℕ, Bool, true, false, not, ◌||◌, Option, none, some, Text, ◌==◌, ltb, nat_eq, if◌then◌else◌,
  length, find,
}
use dance_sync_back_end.Errors.{
  Result, ok, throw, throw_if, ◌>>=◌, ◌>>◌, song_selection_not_active, not_song_chooser,
  invalid_song,
}
use dance_sync_back_end.Model.{Room, Song, SongSelection, done, chooser_left, is_choosing}
use dance_sync_back_end.SongSelectionService.{RandomIndex, pick, assign_fallback_chooser}

abbrev pub is_chooser : SongSelection → Text → Bool
is_chooser selection player_id = elim selection.chooser_id [
  | none ↦ false
  | some id ↦ id == player_id
]

unfoldable pub require_choosing : Room → Result SongSelection
require_choosing room = elim room.song_selection [
  | none ↦ throw song_selection_not_active
  | some selection ↦
      if is_choosing selection.phase then ok selection else throw song_selection_not_active
]

unfoldable pub require_song : SongSelection → Text → Result Song
require_song selection song_id = elim (find (λ s. s.id == song_id) selection.song_options) [
  | none ↦ throw invalid_song
  | some song ↦ ok song
]

unfoldable pub choose : Room → Text → Text → Result Room
unfolding require_choosing require_song
choose room player_id song_id = do
  selection ← require_choosing room
  throw_if (not (is_chooser selection player_id)) not_song_chooser
  song ← require_song selection song_id
  ok (record room {
    song_selection = some (record selection { phase = done; choose_deadline = none });
    selected_song = some song;
  })

-- { ...chosen.songSelection!, autoPicked: true }
unfoldable pub mark_auto_picked : Room → Room
mark_auto_picked room = record room {
  song_selection = elim room.song_selection [
    | none ↦ none
    | some selection ↦ some (record selection { auto_picked = true })
  ];
}

-- The chooser whose deadline has passed; an empty id is falsy.
abbrev pub overdue_chooser : SongSelection → ℕ → Option Text
overdue_chooser selection now = elim selection.chooser_id [
  | none ↦ none
  | some chooser_id ↦ elim selection.choose_deadline [
    | none ↦ none
    | some deadline ↦
        if nat_eq (length chooser_id) 0 || ltb now deadline then none else some chooser_id
  ]
]

unfoldable pub pick_for : Room → SongSelection → Text → RandomIndex → Result (Option Room)
unfolding pick choose mark_auto_picked
pick_for room selection chooser_id random =
    if nat_eq (length selection.song_options) 0
    then ok (some (record room { song_selection = none }))
    else do
      song ← pick random selection.song_options
      chosen ← choose room chooser_id song.id
      ok (some (mark_auto_picked chosen))

unfoldable pub auto_pick : Room → Text → ℕ → RandomIndex → Result (Option Room)
unfolding pick_for
auto_pick room challenge_id now random = elim room.song_selection [
  | none ↦ ok none
  | some selection ↦
      if not (is_choosing selection.phase) || not (selection.challenge.id == challenge_id)
      then ok none
      else elim (overdue_chooser selection now) [
        | none ↦ ok none
        | some chooser_id ↦ pick_for room selection chooser_id random
      ]
]

unfoldable pub handle_player_left : Room → Text → RandomIndex → ℕ → Result Room
handle_player_left room player_id random now = elim room.song_selection [
  | none ↦ ok room
  | some selection ↦
      if not (is_choosing selection.phase) || not (is_chooser selection player_id)
      then ok room
      else assign_fallback_chooser room selection chooser_left random now
]
