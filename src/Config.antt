-- ===== src/Config.antt =====
-- config/env.ts: the settings of the service, read once from the environment.
pub mod Accepted
pub mod Timing
use dance_sync_back_end.Base.{
  ℕ, Bool, true, false, not, ◌&&◌, Option, none, some, List, [], ◌∷◌, nat_eq, length, Text, text,
  Dict, lookup, get_or, if◌then◌else◌,
}
use dance_sync_back_end.Errors.{Result, ok, err, plain_error, ◌>>=◌}
use dance_sync_back_end.Model.{Setting, whole, fraction, negative, not_finite}
use dance_sync_back_end.Identity.{trim}

pub data NumberRule : Type 0 where
  non_negative positive non_negative_integer positive_integer : NumberRule

-- Record<string, string | undefined>
abbrev pub Source : Type 0
Source = Dict Text

abbrev pub wants_integer : NumberRule → Bool
wants_integer non_negative_integer = true
wants_integer positive_integer = true
wants_integer _ = false

abbrev pub wants_positive : NumberRule → Bool
wants_positive positive = true
wants_positive positive_integer = true
wants_positive _ = false

-- !Number.isInteger(parsed) of a finite number; `negative` is refused whatever its fraction
abbrev pub is_fraction : Setting → Bool
is_fraction (fraction n) = true
is_fraction _ = false

abbrev pub is_not_finite : Setting → Bool
is_not_finite not_finite = true
is_not_finite _ = false

-- positive ? parsed <= 0 : parsed < 0
abbrev pub is_too_small : Bool → Setting → Bool
is_too_small strict (whole n) = strict && nat_eq n 0
is_too_small strict (fraction n) = false
is_too_small strict negative = true
is_too_small strict not_finite = false

-- What `Number` reads in a text of the environment.
abbrev pub ReadsNumber : Type 0
ReadsNumber = Text → Setting

check_number : Setting → NumberRule → Result Setting
check_number parsed rule =
    if is_not_finite parsed
    then err plain_error
    else if wants_integer rule && is_fraction parsed
    then err plain_error
    else if is_too_small (wants_positive rule) parsed
    then err plain_error
    else ok parsed

-- The value of a variable, `none` for undefined.
pub read_value : ReadsNumber → Option Text → ℕ → NumberRule → Result Setting
unfolding check_number
read_value number none fallback rule = ok (whole fallback)
read_value number (some raw) fallback rule =
    if nat_eq (length (trim raw)) 0 then ok (whole fallback) else check_number (number raw) rule

unfoldable pub read_number : ReadsNumber → Source → Text → ℕ → NumberRule → Result Setting
unfolding read_value
read_number number source name fallback rule = read_value number (lookup name source) fallback rule

pub record Env : Type 0 where
  pub port : Setting
  pub cors_origin : Text
  pub users_service_url : Text
  pub disconnect_grace_ms : Setting
  pub pagehide_grace_ms : Setting
  pub song_challenge_ms : Setting
  pub song_choose_ms : Setting
  pub battle_start_countdown_ms : Setting
  pub word_race_rounds : Setting
  pub word_race_window_ms : Setting
  pub word_race_min_gap_ms : Setting
  pub vote_points : Setting
  pub word_bonus_points : Setting
  pub word_race_fallback_duration_ms : Setting

unfoldable pub load_env : ReadsNumber → Source → Result Env
load_env number source = do
  let read : Text → ℕ → NumberRule → Result Setting = read_number number source
  port ← read (text "PORT") 3000 non_negative_integer
  disconnect_grace_ms ← read (text "DISCONNECT_GRACE_MS") 15000 non_negative
  pagehide_grace_ms ← read (text "PAGEHIDE_GRACE_MS") 3000 non_negative
  song_challenge_ms ← read (text "SONG_CHALLENGE_MS") 15000 positive
  song_choose_ms ← read (text "SONG_CHOOSE_MS") 20000 positive
  countdown_ms ← read (text "BATTLE_START_COUNTDOWN_MS") 5000 non_negative
  word_race_rounds ← read (text "WORD_RACE_ROUNDS") 3 non_negative_integer
  word_race_window_ms ← read (text "WORD_RACE_WINDOW_MS") 10000 positive
  word_race_min_gap_ms ← read (text "WORD_RACE_MIN_GAP_MS") 12000 non_negative
  vote_points ← read (text "VOTE_POINTS") 2 positive_integer
  word_bonus_points ← read (text "WORD_BONUS_POINTS") 1 positive_integer
  fallback_duration_ms ← read (text "WORD_RACE_FALLBACK_DURATION_MS") 90000 positive
  ok (record {
    port = port;
    cors_origin = get_or (lookup (text "CORS_ORIGIN") source) (text "http://localhost:5173");
    users_service_url =
        get_or (lookup (text "USERS_SERVICE_URL") source) (text "http://localhost:8081");
    disconnect_grace_ms = disconnect_grace_ms;
    pagehide_grace_ms = pagehide_grace_ms;
    song_challenge_ms = song_challenge_ms;
    song_choose_ms = song_choose_ms;
    battle_start_countdown_ms = countdown_ms;
    word_race_rounds = word_race_rounds;
    word_race_window_ms = word_race_window_ms;
    word_race_min_gap_ms = word_race_min_gap_ms;
    vote_points = vote_points;
    word_bonus_points = word_bonus_points;
    word_race_fallback_duration_ms = fallback_duration_ms;
  })
