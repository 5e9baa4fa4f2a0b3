-- ===== src/Model/WordRaces.antt =====
-- domain/model/WordRace.ts
use dance_sync_back_end.Base.{ℕ, Bool, true, false, Text, List, Option, Dict}

abbrev pub default_word_race_rounds : ℕ
default_word_race_rounds = 3

abbrev pub default_word_window_ms : ℕ
default_word_window_ms = 10000

abbrev pub default_word_min_gap_ms : ℕ
default_word_min_gap_ms = 12000

abbrev pub default_word_fallback_duration_ms : ℕ
default_word_fallback_duration_ms = 90000

-- `opened` is the status "open".
pub data WordRoundStatus : Type 0 where
  scheduled opened won expired : WordRoundStatus

abbrev pub is_scheduled : WordRoundStatus → Bool
is_scheduled scheduled = true
is_scheduled _ = false

abbrev pub is_opened : WordRoundStatus → Bool
is_opened opened = true
is_opened _ = false

abbrev pub is_expired : WordRoundStatus → Bool
is_expired expired = true
is_expired _ = false

pub record WordRound : Type 0 where
  pub id : Text
  pub number : ℕ
  pub word : Text
  pub opens_at : ℕ
  pub closes_at : ℕ
  pub winner_id : Option Text
  pub status : WordRoundStatus

pub record WordRace : Type 0 where
  pub room_code : Text
  pub battle_id : Text
  pub participant_ids : List Text
  pub participant_names : Dict Text
  pub rounds : List WordRound
  pub wins : Dict ℕ

pub data SubmitWordOutcome : Type 0 where
  word_won word_late word_incorrect word_expired : SubmitWordOutcome
