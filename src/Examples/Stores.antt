-- ===== src/Examples/Stores.antt =====
-- Rooms in the store: a battle from its room to its end.
use dance_sync_back_end.Base.{
  ◌≡◌, refl, true, false, none, some, List, [], ◌∷◌, map, text, Text, lookup, text_discrete, ◌==◌,
  Option,
}
use dance_sync_back_end.Model.{Song, RoomStatus, battling, string, boolean, whole}
use dance_sync_back_end.SongSelectionService.{RandomIndex}
use dance_sync_back_end.RoomService.Starting.{StartBattleOptions}
use dance_sync_back_end.RoomRepository.{Rooms, same, write, update}
use dance_sync_back_end.RoomRepository.Stored.{AllValid}
use dance_sync_back_end.RoomRepository.Versions.{Evolves, update-Evolves}
use dance_sync_back_end.UseCases.Requests.{
  Request, creates, joins, selects_role, sets_ready, starts_challenge, submits_phrase, chooses_song,
  wins_word, votes, leaves, song_ends, serve_all,
}
use dance_sync_back_end.UseCases.Requests.Validity.{serve_all-AllValid}
use dance_sync_back_end.Errors.{ok}
use dance_sync_back_end.Examples.Samples.{plain, ana, bea, cid}

-- The random index of the examples.
abbrev pub first : RandomIndex
first n = 0

abbrev pub code : Text
code = text "ROOM"

abbrev song : Song
song = record {
  id = text "s1";
  title = text "Song";
  artist = text "Artist";
  duration_seconds = 30;
  youtube_id = text "y";
}

abbrev pub options : StartBattleOptions
options = record {
  now = 100;
  countdown_ms = whole 5;
  fallback_duration_ms = whole 60;
  vote_points = whole 2;
  word_bonus_points = whole 1;
  battle_id = text "b1";
}

-- Three players meet, the dancers type for the song, ana chooses it, and cid votes for bea.
abbrev requests : List Request
requests =
    creates (string ana) (string (text "Ana")) 1 (code ∷ [])
    ∷ joins (string code) (string bea) (string (text "Bea"))
    ∷ joins (string code) (string cid) (string (text "Cid"))
    ∷ selects_role code ana (string (text "dancer"))
    ∷ selects_role code bea (string (text "dancer"))
    ∷ selects_role code cid (string (text "spectator"))
    ∷ sets_ready code ana (boolean true)
    ∷ sets_ready code bea (boolean true)
    ∷ sets_ready code cid (boolean true)
    ∷ starts_challenge code ana (record {
      now = 10;
      duration_ms = 15;
      choose_ms = whole 20;
      random = first;
      phrases = text "vamos" ∷ [];
      songs = song ∷ [];
      challenge_id = text "c1";
    })
    ∷ submits_phrase code ana (string (text "vamos ")) 12
    ∷ chooses_song code ana (text "s1") options
    ∷ wins_word code ana
    ∷ votes code cid (string bea) 200
    ∷ []

abbrev evening : List (RandomIndex × Request)
evening = map (λ r. (first, r)) requests

serve_all-AllValid_example : AllValid (serve_all plain evening [])
serve_all-AllValid_example = serve_all-AllValid plain evening [] tt

abbrev after : List (RandomIndex × Request) → Option (RoomStatus × List (Text × Text))
after rs = elim (lookup code (serve_all plain rs [])) [
  | none ↦ none
  | some room ↦ elim room.battle [ none ↦ none | some battle ↦ some (room.status, battle.votes) ]
]

evening_votes : after evening ≡ some (battling, (cid, bea) ∷ [])
unfolding serve_all text_discrete update dance_sync_back_end.UseCases.Requests.serve
    dance_sync_back_end.UseCases.Commands.cast_vote
    dance_sync_back_end.UseCases.Commands.award_word_bonus
    dance_sync_back_end.UseCases.Commands.choose_song
    dance_sync_back_end.UseCases.Commands.submit_song_phrase
    dance_sync_back_end.UseCases.Commands.start_song_challenge
    dance_sync_back_end.UseCases.Commands.set_ready
    dance_sync_back_end.UseCases.Commands.select_role
    dance_sync_back_end.UseCases.Commands.start_if_possible
    dance_sync_back_end.UseCases.Commands.started_or dance_sync_back_end.UseCases.update_capturing
    dance_sync_back_end.UseCases.capture dance_sync_back_end.UseCases.insert_under
    dance_sync_back_end.UseCases.join_room dance_sync_back_end.UseCases.create_room
    dance_sync_back_end.RoomRepository.update_room dance_sync_back_end.RoomRepository.insert_room
    dance_sync_back_end.RoomRepository.apply_change dance_sync_back_end.Identity.require_room_code
    dance_sync_back_end.Identity.validate_player dance_sync_back_end.Identity.trim
    dance_sync_back_end.Identity.trim_start dance_sync_back_end.Identity.trim_end
    dance_sync_back_end.Identity.is_space dance_sync_back_end.Identity.normalize_attempt
    dance_sync_back_end.Identity.unique_display_name dance_sync_back_end.RoomService.create
    dance_sync_back_end.RoomService.join dance_sync_back_end.RoomService.select_role
    dance_sync_back_end.RoomService.set_ready dance_sync_back_end.RoomService.Starting.start_battle
    dance_sync_back_end.RoomService.Starting.find_all
    dance_sync_back_end.RoomService.Battles.award_word_bonus
    dance_sync_back_end.RoomService.Battles.cast_vote
    dance_sync_back_end.RoomService.Battles.open_battle
    dance_sync_back_end.RoomService.Battles.running_battle
    dance_sync_back_end.RoomService.Battles.wanted_dancer
    dance_sync_back_end.SongSelectionService.start dance_sync_back_end.SongSelectionService.pick
    dance_sync_back_end.SongSelectionService.require_typing
    dance_sync_back_end.SongSelectionService.is_selection_in_progress
    dance_sync_back_end.SongSelectionService.require_everyone_ready
    dance_sync_back_end.SongSelectionService.assign_fallback_chooser
    dance_sync_back_end.SongSelectionService.Attempts.submit
    dance_sync_back_end.SongSelectionService.Attempts.judge_attempt
    dance_sync_back_end.SongSelectionService.Choices.choose
    dance_sync_back_end.SongSelectionService.Choices.require_choosing
    dance_sync_back_end.SongSelectionService.Choices.require_song
    dance_sync_back_end.Base.ℕ_discrete
evening_votes = refl

-- Touching the only room leaves it one version further.
update-Evolves_example :
    Evolves
      (lookup code (serve_all plain evening []))
      (lookup code (update plain code (λ room. ok (write room)) (serve_all plain evening [])).1)
    × ((code == code) ≡ false
        → lookup code (update plain code (λ room. ok (write room)) (serve_all plain evening [])).1
          ≡ lookup code (serve_all plain evening []))
update-Evolves_example =
    update-Evolves plain code (λ room. ok (write room)) (serve_all plain evening []) code
