-- ===== src/Model/SongSelections.antt =====
-- domain/model/SongSelection.ts
use dance_sync_back_end.Base.{ℕ, Bool, true, false, Text, List, Option}
use dance_sync_back_end.Model.Battles.{Song}

abbrev pub default_song_challenge_ms : ℕ
default_song_challenge_ms = 15000

abbrev pub default_song_choose_ms : ℕ
default_song_choose_ms = 20000

pub data SongSelectionPhase : Type 0 where
  typing choosing done : SongSelectionPhase

pub data ChooserReason : Type 0 where
  typed timeout all_failed chooser_left : ChooserReason

pub record SongChallenge : Type 0 where
  pub id : Text
  pub phrase : Text
  pub started_at : ℕ
  pub expires_at : ℕ

pub record SongSelection : Type 0 where
  pub phase : SongSelectionPhase
  pub challenge : SongChallenge
  pub participant_ids : List Text
  pub failed_ids : List Text
  pub chooser_id : Option Text
  pub chooser_reason : Option ChooserReason
  pub song_options : List Song
  pub choose_ms : ℕ
  pub choose_deadline : Option ℕ
  pub auto_picked : Bool

abbrev pub is_typing : SongSelectionPhase → Bool
is_typing typing = true
is_typing _ = false

abbrev pub is_choosing : SongSelectionPhase → Bool
is_choosing choosing = true
is_choosing _ = false
