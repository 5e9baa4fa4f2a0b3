-- ===== src/Model/MatchRecords.antt =====
-- domain/model/MatchRecord.ts
use dance_sync_back_end.Base.{ℕ, Bool, Text, List, Option}
use dance_sync_back_end.Model.Players.{PlayerRole}
use dance_sync_back_end.Model.Battles.{BattleEndReason}

pub record MatchParticipantRecord : Type 0 where
  pub player_id : Text
  pub display_name : Text
  pub role : PlayerRole
  pub votes : Option ℕ
  pub words_won : Option ℕ
  pub score : Option ℕ
  pub rank : Option ℕ
  pub left_early : Bool

pub record MatchRecord : Type 0 where
  pub id : Text
  pub room_code : Text
  pub song_id : Option Text
  pub song_title : Option Text
  pub started_at : ℕ
  pub finished_at : ℕ
  pub winner_player_id : Option Text
  pub end_reason : BattleEndReason
  pub participants : List MatchParticipantRecord
