-- ===== src/Examples/Samples.antt =====
-- The data of the examples: dancers and spectators of one room, and tables of Unicode that leave
-- every text as it is.
use dance_sync_back_end.Base.{Text, text, true, false, none, some, [], ◌∷◌}
use dance_sync_back_end.Model.{
  Battle, ScoringPoints, Player, PlayerRole, Room, dancer, spectator, battling, waiting,
  SongSelection, typing,
}
use dance_sync_back_end.Identity.{Unicode}

abbrev pub plain : Unicode
plain = record {
  normalize_nfc = λ t. t;
  to_lower_case = λ t. t;
  to_locale_lower_case = λ t. t;
  to_upper_case = λ t. t;
}

abbrev pub ana : Text
ana = text "ana"

abbrev pub bea : Text
bea = text "bea"

abbrev pub cid : Text
cid = text "cid"

abbrev pub dan : Text
dan = text "dan"

abbrev pub points : ScoringPoints
points = record { vote_points = 2; word_bonus_points = 1 }

-- Two dancers, two spectators who both vote for bea, and a word that ana won.
abbrev pub duel : Battle
duel = record {
  id = text "b1";
  room_code = text "ROOM";
  dancer_ids = ana ∷ bea ∷ [];
  roster =
      record { id = ana; display_name = text "Ana" }
      ∷ record { id = bea; display_name = text "Bea" }
      ∷ [];
  audience = [];
  song = none;
  votes = (cid, bea) ∷ (dan, bea) ∷ [];
  words_won = (ana, 1) ∷ (bea, 0) ∷ [];
  scoring = points;
  started_at = 100;
  ends_at = 200;
  finished_at = none;
  end_reason = none;
  result = none;
}

abbrev pub player : PlayerRole → Text → Player
player role id = record { id = id; display_name = id; role = role; ready = true }

-- The room of the duel.
abbrev pub arena : Room
arena = record {
  code = text "ROOM";
  host_id = ana;
  players = player dancer ana ∷ player dancer bea ∷ player spectator cid ∷ [];
  dancers = some (player dancer ana ∷ player dancer bea ∷ []);
  spectators = player spectator cid ∷ [];
  status = battling;
  battle = some duel;
  song_selection = none;
  selected_song = none;
  last_result = none;
  created_at = 0;
  version = 3;
}

-- A challenge between ana and bea, in which bea has misspelled the phrase.
abbrev pub challenge : SongSelection
challenge = record {
  phase = typing;
  challenge = record { id = text "c1"; phrase = text "vamos"; started_at = 10; expires_at = 25 };
  participant_ids = ana ∷ bea ∷ [];
  failed_ids = bea ∷ [];
  chooser_id = none;
  chooser_reason = none;
  song_options = [];
  choose_ms = 20;
  choose_deadline = none;
  auto_picked = false;
}

-- The room of the challenge.
abbrev pub lobby : Room
lobby = record arena { status = waiting; battle = none; song_selection = some challenge }
