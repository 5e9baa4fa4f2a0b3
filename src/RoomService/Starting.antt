-- ===== src/RoomService/Starting.antt =====
-- `startBattle` of RoomService.ts.
use dance_sync_back_end.Base.{
  ℕ, ◌+◌, ◌*◌, Bool, false, not, ◌||◌, none, some, List, [], ◌∷◌, map, Text, ◌==◌, ltb,
  if◌then◌else◌, length, find, includes,
}
use dance_sync_back_end.Errors.{
  Result, ok, err, range_error, throw, throw_if, ◌>>=◌, ◌>>◌, room_not_waiting, not_enough_dancers,
  invalid_dancer, song_not_selected, song_selection_in_progress,
}
use dance_sync_back_end.Model.{
  Room, Player, Song, Battle, RosterEntry, dancer, spectator, battling, is_waiting,
  min_dancers_per_battle, Wire, string, boolean, null, missing, other, array, WireItems, end, item,
  Setting, whole, fraction, negative, not_finite,
}
use dance_sync_back_end.ScoringService.{zeros}
use dance_sync_back_end.SongSelectionService.{
  dancer_ids_of, is_selection_in_progress, require_everyone_ready,
}
use dance_sync_back_end.RoomService.{has_player, spectators_of}

pub record StartBattleOptions : Type 0 where
  pub now : ℕ
  pub countdown_ms : Setting
  pub fallback_duration_ms : Setting
  pub vote_points : Setting
  pub word_bonus_points : Setting
  pub battle_id : Text

-- Finite and 0 or more; a Date keeps the whole part.
unfoldable pub finite_ms : Setting → Result ℕ
finite_ms (whole n) = ok n
finite_ms (fraction n) = ok n
finite_ms negative = err range_error
finite_ms not_finite = err range_error

-- An integer of 0 or more.
unfoldable pub whole_points : Setting → Result ℕ
whole_points (whole n) = ok n
whole_points (fraction n) = err range_error
whole_points negative = err range_error
whole_points not_finite = err range_error

unfoldable pub strings : WireItems → Result (List Text)
strings end = ok []
strings (item (string s) rest) = do ids ← strings rest; ok (s ∷ ids)
strings (item (boolean b) rest) = throw invalid_dancer
strings (item null rest) = throw invalid_dancer
strings (item missing rest) = throw invalid_dancer
strings (item other rest) = throw invalid_dancer
strings (item (array items) rest) = throw invalid_dancer

-- dancerIds, or the players with the role
unfoldable pub selected_ids : Room → Wire → Result (List Text)
unfolding strings
selected_ids room null = ok (dancer_ids_of room.players)
selected_ids room missing = ok (dancer_ids_of room.players)
selected_ids room (array items) = strings items
selected_ids room (string s) = throw invalid_dancer
selected_ids room (boolean b) = throw invalid_dancer
selected_ids room other = throw invalid_dancer

-- new Set(ids).size !== ids.length
abbrev pub has_duplicates : List Text → Bool
has_duplicates [] = false
has_duplicates (id ∷ ids) = includes ids id || has_duplicates ids

-- selectedIds.map((id) => room.players.find((p) => p.id === id)), if all are found
unfoldable pub find_all : List Player → List Text → Result (List Player)
find_all players [] = ok []
find_all players (id ∷ ids) = elim (find (λ p. p.id == id) players) [
  | none ↦ throw invalid_dancer
  | some p ↦ do rest ← find_all players ids; ok (p ∷ rest)
]

unfoldable pub require_song : Room → Result Song
require_song room = elim room.selected_song [ none ↦ throw song_not_selected | some song ↦ ok song ]

abbrev pub as_dancer : Player → Player
as_dancer p = record p { role = dancer }

abbrev pub assign_roles : List Player → Player → Player
assign_roles dancers p =
    if has_player dancers p.id then record p { role = dancer } else record p { role = spectator }

abbrev pub roster_of : List Player → List RosterEntry
roster_of = map (λ p. record { id = p.id; display_name = p.display_name })

unfoldable pub start_battle : Room → Wire → StartBattleOptions → Result Room
unfolding finite_ms whole_points selected_ids find_all require_song
start_battle room dancer_ids o = do
  countdown_ms ← finite_ms o.countdown_ms
  fallback_ms ← finite_ms o.fallback_duration_ms
  vote_points ← whole_points o.vote_points
  word_bonus_points ← whole_points o.word_bonus_points
  throw_if (not (is_waiting room.status)) room_not_waiting
  throw_if (is_selection_in_progress room) song_selection_in_progress
  ids ← selected_ids room dancer_ids
  throw_if (has_duplicates ids) invalid_dancer
  throw_if (ltb (length ids) min_dancers_per_battle) not_enough_dancers
  selected ← find_all room.players ids
  require_everyone_ready room
  song ← require_song room
  let dancers = map as_dancer selected
  let players = map (assign_roles dancers) room.players
  let spectators = spectators_of players
  let started_at = o.now + countdown_ms
  let battle : Battle = record {
    id = o.battle_id;
    room_code = room.code;
    dancer_ids = map (λ (d : Player). d.id) dancers;
    roster = roster_of dancers;
    audience = roster_of spectators;
    song = some song;
    votes = [];
    words_won = zeros (map (λ (d : Player). d.id) dancers);
    scoring = record { vote_points = vote_points; word_bonus_points = word_bonus_points };
    started_at = started_at;
    ends_at = started_at + song.duration_seconds * 1000;
    finished_at = none;
    end_reason = none;
    result = none;
  }
  ok (record room {
    players = players;
    dancers = some dancers;
    spectators = spectators;
    status = battling;
    battle = some battle;
  })
