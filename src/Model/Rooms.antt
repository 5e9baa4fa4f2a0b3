-- ===== src/Model/Rooms.antt =====
-- domain/model/Room.ts
use dance_sync_back_end.Base.{ℕ, Bool, true, false, Text, List, Option}
use dance_sync_back_end.Model.Players.{Player}
use dance_sync_back_end.Model.Battles.{Song, Battle, BattleResult}
use dance_sync_back_end.Model.SongSelections.{SongSelection}

abbrev pub max_players : ℕ
max_players = 7

abbrev pub min_dancers_per_battle : ℕ
min_dancers_per_battle = 2

pub data RoomStatus : Type 0 where
  waiting battling finished : RoomStatus

abbrev pub is_waiting : RoomStatus → Bool
is_waiting waiting = true
is_waiting _ = false

abbrev pub is_battling : RoomStatus → Bool
is_battling battling = true
is_battling _ = false

abbrev pub is_finished : RoomStatus → Bool
is_finished finished = true
is_finished _ = false

pub record Room : Type 0 where
  pub code : Text
  pub host_id : Text
  pub players : List Player
  pub dancers : Option (List Player)
  pub spectators : List Player
  pub status : RoomStatus
  pub battle : Option Battle
  pub song_selection : Option SongSelection
  pub selected_song : Option Song
  pub last_result : Option BattleResult
  pub created_at : ℕ
  pub version : ℕ
