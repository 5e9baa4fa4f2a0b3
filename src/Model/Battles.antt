-- ===== src/Model/Battles.antt =====
-- domain/model/Song.ts and domain/model/Battle.ts
use dance_sync_back_end.Base.{ℕ, Text, List, Option, Dict}

pub record Song : Type 0 where
  pub id : Text
  pub title : Text
  pub artist : Text
  pub duration_seconds : ℕ
  pub youtube_id : Text

abbrev pub default_vote_points : ℕ
default_vote_points = 2

abbrev pub default_word_bonus_points : ℕ
default_word_bonus_points = 1

pub record ScoringPoints : Type 0 where
  pub vote_points : ℕ
  pub word_bonus_points : ℕ

pub data BattleEndReason : Type 0 where
  song_end not_enough_dancers_left : BattleEndReason

pub record Standing : Type 0 where
  pub dancer_id : Text
  pub display_name : Text
  pub votes : ℕ
  pub words_won : ℕ
  pub score : ℕ
  pub rank : ℕ

pub record BattleResult : Type 0 where
  pub standings : List Standing
  pub winner_id : Option Text

pub record RosterEntry : Type 0 where
  pub id : Text
  pub display_name : Text

pub record Battle : Type 0 where
  pub id : Text
  pub room_code : Text
  pub dancer_ids : List Text
  pub roster : List RosterEntry
  pub audience : List RosterEntry
  pub song : Option Song
  pub votes : Dict Text
  pub words_won : Dict ℕ
  pub scoring : ScoringPoints
  pub started_at : ℕ
  pub ends_at : ℕ
  pub finished_at : Option ℕ
  pub end_reason : Option BattleEndReason
  pub result : Option BattleResult
