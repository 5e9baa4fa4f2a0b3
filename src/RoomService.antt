-- ===== src/RoomService.antt =====
-- domain/services/RoomService.ts: the lobby. The battle and the departures are in modules below. An
-- operation that returns the very room it was given, for the store to write nothing, returns `none`.
pub mod Starting
pub mod Battles
pub mod Departures
pub mod Emptied
pub mod Players
pub mod Votes
pub mod Validity
use dance_sync_back_end.Base.{
  ℕ, ◌≡◌, Bool, true, false, not, ◌&&◌, ◌||◌, Option, none, some, List, [], ◌∷◌, ◌++◌, map, Text,
  text, ◌==◌, ltb, leb, nat_eq, if◌then◌else◌, length, filter, any,
}
use dance_sync_back_end.Errors.{
  Result, ok, err, throw, throw_if, from_loop, ◌>>=◌, ◌>>◌, room_not_waiting,
  player_already_in_room, room_full, invalid_message, player_not_in_room,
}
use dance_sync_back_end.Model.{
  Room, Player, PlayerRole, undecided, dancer, spectator, waiting, is_waiting, is_spectator,
  max_players, Wire, string, boolean,
}
use dance_sync_back_end.Identity.{Unicode, Identity, validate_player, unique_display_name}

abbrev pub has_player : List Player → Text → Bool
has_player players id = any (λ p. p.id == id) players

abbrev pub spectators_of : List Player → List Player
spectators_of = filter (λ p. is_spectator p.role)

unfoldable pub create : Identity → Text → ℕ → Result Room
create host code now = do
  valid ← validate_player (string host.id) (string host.display_name)
  ok (record {
    code = code;
    host_id = valid.id;
    players =
        record { id = valid.id; display_name = valid.display_name; role = undecided; ready = false }
        ∷ [];
    dancers = none;
    spectators = [];
    status = waiting;
    battle = none;
    song_selection = none;
    selected_song = none;
    last_result = none;
    created_at = now;
    version = 0;
  })

unfoldable pub join : Unicode → Room → Identity → Result Room
join u room player = do
  throw_if (not (is_waiting room.status)) room_not_waiting
  throw_if (has_player room.players player.id) player_already_in_room
  throw_if (leb max_players (length room.players)) room_full
  valid ← validate_player (string player.id) (string player.display_name)
  name ← from_loop (unique_display_name u room.players valid.display_name)
  let joined : Player = record {
    id = valid.id;
    display_name = name;
    role = undecided;
    ready = false;
  }
  ok (record room { players = room.players ++ joined ∷ [] })

-- PLAYABLE_ROLES.includes(role)
playable_role : Wire → Result PlayerRole
playable_role (string role) =
    if role == text "dancer"
    then ok dancer
    else if role == text "spectator"
    then ok spectator
    else throw invalid_message
playable_role _ = throw invalid_message

abbrev pub set_role : Text → PlayerRole → Player → Player
set_role id role p = if p.id == id then record p { role = role } else p

unfoldable pub select_role : Room → Text → Wire → Result Room
unfolding playable_role
select_role room player_id wanted = do
  role ← playable_role wanted
  throw_if (not (is_waiting room.status)) room_not_waiting
  throw_if (not (has_player room.players player_id)) player_not_in_room
  let players = map (set_role player_id role) room.players
  ok (record room { players = players; spectators = spectators_of players })

ready_flag : Wire → Result Bool
ready_flag (boolean b) = ok b
ready_flag _ = throw invalid_message

abbrev pub mark_ready : Text → Bool → Player → Player
mark_ready id ready p = if p.id == id then record p { ready = ready } else p

unfoldable pub set_ready : Room → Text → Wire → Result Room
unfolding ready_flag
set_ready room player_id wanted = do
  ready ← ready_flag wanted
  throw_if (not (is_waiting room.status)) room_not_waiting
  throw_if (not (has_player room.players player_id)) player_not_in_room
  let players = map (mark_ready player_id ready) room.players
  ok (record room { players = players; spectators = spectators_of players })
