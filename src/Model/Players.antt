-- ===== src/Model/Players.antt =====
-- domain/model/Player.ts
use dance_sync_back_end.Base.{ℕ, Bool, true, false, Text}

pub data PlayerRole : Type 0 where
  undecided dancer spectator : PlayerRole

abbrev pub max_player_id_length : ℕ
max_player_id_length = 64

abbrev pub max_display_name_length : ℕ
max_display_name_length = 32

pub record Player : Type 0 where
  pub id : Text
  pub display_name : Text
  pub role : PlayerRole
  pub ready : Bool

abbrev pub is_dancer : PlayerRole → Bool
is_dancer dancer = true
is_dancer _ = false

abbrev pub is_spectator : PlayerRole → Bool
is_spectator spectator = true
is_spectator _ = false
