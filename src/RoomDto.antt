-- ===== src/RoomDto.antt =====
-- infrastructure/serialization/roomDto.ts: the rooms that clients see.
pub mod Privacy
use dance_sync_back_end.Base.{
  ℕ, ◌-◌, Bool, Option, none, some, List, [], map, Text, Dict, insert_all, leb, if◌then◌else◌,
}
use dance_sync_back_end.Model.{
  Room, RoomStatus, Player, Song, Battle, BattleResult, BattleEndReason, ScoringPoints, Standing,
  RosterEntry, SongSelection, SongSelectionPhase, ChooserReason, SongChallenge, is_battling,
  is_choosing,
}
use dance_sync_back_end.ScoringService.{standings}

-- A difference of two times, which may be negative: `negsuc n` is -(n + 1).
pub data ℤ : Type 0 where
  pos negsuc : ℕ → ℤ

abbrev pub difference : ℕ → ℕ → ℤ
difference a b = if leb b a then pos (a - b) else negsuc (b - a - 1)

-- Math.max(0, a - b)
abbrev pub time_left : ℕ → ℕ → ℕ
time_left a b = a - b

-- A selection with `expiresInMs` of its challenge and `chooseExpiresInMs`.
pub record SongSelectionDto : Type 0 where
  pub selection : SongSelection
  pub expires_in_ms : ℕ
  pub choose_expires_in_ms : Option ℕ

-- Every field of the battle but `votes`, and the added ones.
pub record BattleDto : Type 0 where
  pub id : Text
  pub room_code : Text
  pub dancer_ids : List Text
  pub roster : List RosterEntry
  pub audience : List RosterEntry
  pub song : Option Song
  pub words_won : Dict ℕ
  pub scoring : ScoringPoints
  pub started_at : ℕ
  pub ends_at : ℕ
  pub finished_at : Option ℕ
  pub end_reason : Option BattleEndReason
  pub result : Option BattleResult
  pub starts_in_ms : ℤ
  pub ends_in_ms : Option ℤ
  pub shown_standings : List Standing
  pub shown_vote_counts : Dict ℕ

pub record RoomDto : Type 0 where
  pub code : Text
  pub host_id : Text
  pub players : List Player
  pub dancers : Option (List Player)
  pub spectators : List Player
  pub status : RoomStatus
  pub battle : Option BattleDto
  pub song_selection : Option SongSelectionDto
  pub selected_song : Option Song
  pub last_result : Option BattleResult
  pub created_at : ℕ
  pub version : ℕ

-- battle.result ? battle.result.standings : ScoringService.standings(battle)
unfoldable pub standings_shown : Battle → List Standing
standings_shown battle = elim battle.result [
  | none ↦ standings battle battle.scoring
  | some result ↦ result.standings
]

unfoldable pub to_battle_dto : Battle → Bool → ℕ → BattleDto
to_battle_dto battle running at = record {
  id = battle.id;
  room_code = battle.room_code;
  dancer_ids = battle.dancer_ids;
  roster = battle.roster;
  audience = battle.audience;
  song = battle.song;
  words_won = battle.words_won;
  scoring = battle.scoring;
  started_at = battle.started_at;
  ends_at = battle.ends_at;
  finished_at = battle.finished_at;
  end_reason = battle.end_reason;
  result = battle.result;
  starts_in_ms = difference battle.started_at at;
  ends_in_ms = if running then some (difference battle.ends_at at) else none;
  shown_standings = standings_shown battle;
  shown_vote_counts =
      insert_all [] (map (λ (s : Standing). (s.dancer_id, s.votes)) (standings_shown battle));
}

unfoldable pub to_song_selection_dto : SongSelection → ℕ → SongSelectionDto
to_song_selection_dto selection at = record {
  selection = selection;
  expires_in_ms = time_left selection.challenge.expires_at at;
  choose_expires_in_ms =
      if is_choosing selection.phase
      then elim selection.choose_deadline [
        | none ↦ none
        | some deadline ↦ some (time_left deadline at)
      ]
      else none;
}

unfoldable pub to_room_dto : Room → ℕ → RoomDto
unfolding to_battle_dto to_song_selection_dto
to_room_dto room at = record {
  code = room.code;
  host_id = room.host_id;
  players = room.players;
  dancers = room.dancers;
  spectators = room.spectators;
  status = room.status;
  battle = elim room.battle [
    | none ↦ none
    | some battle ↦ some (to_battle_dto battle (is_battling room.status) at)
  ];
  song_selection = elim room.song_selection [
    | none ↦ none
    | some selection ↦ some (to_song_selection_dto selection at)
  ];
  selected_song = room.selected_song;
  last_result = room.last_result;
  created_at = room.created_at;
  version = room.version;
}
