-- ===== src/Examples/Settings.antt =====
-- Settings of the environment: a window of 2.5 seconds, and a countdown that is blank.
use dance_sync_back_end.Base.{
  ◌≡◌, refl, ◌↔◌, ◌==◌, [], ◌∷◌, text, text_discrete, if◌then◌else◌, lookup,
}
use dance_sync_back_end.Errors.{ok, IsExpected}
use dance_sync_back_end.Model.{whole, fraction, not_finite, missing}
use dance_sync_back_end.RoomService.Starting.{start_battle}
use dance_sync_back_end.Config.{Source, ReadsNumber, positive_integer, Env, read_number, load_env}
use dance_sync_back_end.Config.Accepted.{IsRead, IsConfig, read_number_iff, load_env-IsConfig}
use dance_sync_back_end.Config.Timing.{battle_timing, start_battle-IsExpected}
use dance_sync_back_end.Examples.Samples.{lobby}

-- Number, for the texts of this example.
abbrev number : ReadsNumber
number raw =
    if raw == text "2.5" then fraction 2 else if raw == text "7" then whole 7 else not_finite

abbrev source : Source
source =
    (text "WORD_RACE_WINDOW_MS", text "2.5")
    ∷ (text "BATTLE_START_COUNTDOWN_MS", text " ")
    ∷ (text "VOTE_POINTS", text "7")
    ∷ []

read_number_example :
    (read_number number source (text "VOTE_POINTS") 2 positive_integer ≡ ok (whole 7))
    ↔ IsRead number (lookup (text "VOTE_POINTS") source) 2 positive_integer (whole 7)
read_number_example =
    read_number_iff number source (text "VOTE_POINTS") 2 positive_integer (whole 7)

abbrev settings : Env
settings = record {
  port = whole 3000;
  cors_origin = text "http://localhost:5173";
  users_service_url = text "http://localhost:8081";
  disconnect_grace_ms = whole 15000;
  pagehide_grace_ms = whole 3000;
  song_challenge_ms = whole 15000;
  song_choose_ms = whole 20000;
  battle_start_countdown_ms = whole 5000;
  word_race_rounds = whole 3;
  word_race_window_ms = fraction 2;
  word_race_min_gap_ms = whole 12000;
  vote_points = whole 7;
  word_bonus_points = whole 1;
  word_race_fallback_duration_ms = whole 90000;
}

settings_accepted : load_env number source ≡ ok settings
unfolding load_env read_number text_discrete dance_sync_back_end.Identity.trim
    dance_sync_back_end.Identity.trim_start dance_sync_back_end.Identity.trim_end
    dance_sync_back_end.Identity.is_space
settings_accepted = refl

load_env-IsConfig_example : IsConfig settings
load_env-IsConfig_example = load_env-IsConfig number source settings settings_accepted

start_battle-IsExpected_example :
    IsExpected (start_battle lobby missing (battle_timing settings 100 (text "b1")))
start_battle-IsExpected_example =
    start_battle-IsExpected number source settings lobby missing 100 (text "b1") settings_accepted
