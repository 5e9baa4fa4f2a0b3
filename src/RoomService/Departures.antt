-- ===== src/RoomService/Departures.antt =====
-- `leave`, `kick` and `settleBattleAfterLeave` of RoomService.ts.
use dance_sync_back_end.Base.{
  ℕ, not, ◌&&◌, none, some, List, [], ◌∷◌, Text, ◌==◌, Dict, ltb, if◌then◌else◌, length, filter,
}
use dance_sync_back_end.Errors.{
  Result, ok, throw, throw_if, ◌>>=◌, ◌>>◌, player_not_in_room, not_host, room_not_waiting,
  invalid_player,
}
use dance_sync_back_end.Model.{
  Room, Player, Battle, not_enough_dancers_left, is_waiting, is_battling, min_dancers_per_battle,
  Wire, string,
}
use dance_sync_back_end.SongSelectionService.{RandomIndex}
use dance_sync_back_end.SongSelectionService.Choices.{handle_player_left}
use dance_sync_back_end.RoomService.{has_player}
use dance_sync_back_end.RoomService.Battles.{finish_battle}

abbrev pub without_player : List Player → Text → List Player
without_player players id = filter (λ p. not (p.id == id)) players

-- The votes that neither come from the player nor go to them.
abbrev pub votes_without : Dict Text → Text → Dict Text
votes_without votes id = filter (λ v. not (v.0 == id) && not (v.1 == id)) votes

abbrev pub withdraw : Battle → Text → Battle
withdraw battle id = record battle {
  dancer_ids = filter (λ d. not (d == id)) battle.dancer_ids;
  votes = votes_without battle.votes id;
}

unfoldable pub settle_battle_after_leave : Room → Text → ℕ → Result Room
unfolding finish_battle
settle_battle_after_leave room player_id now = elim room.battle [
  | none ↦ ok room
  | some battle ↦
      let continuing = record room { battle = some (withdraw battle player_id) } in
      if not (is_battling room.status)
      then ok room
      else if ltb (length (withdraw battle player_id).dancer_ids) min_dancers_per_battle
      then finish_battle continuing not_enough_dancers_left now
      else ok continuing
]

-- players[0]?.id ?? room.hostId
unfoldable pub first_id : List Player → Text → Text
first_id [] host_id = host_id
first_id (p ∷ players) host_id = p.id

unfoldable pub remove_player : Room → Text → Room
unfolding first_id
remove_player room player_id =
    let players = without_player room.players player_id in
    record room {
      players = players;
      dancers = elim room.dancers [ none ↦ none | some ds ↦ some (without_player ds player_id) ];
      spectators = without_player room.spectators player_id;
      host_id = if room.host_id == player_id then first_id players room.host_id else room.host_id;
    }

unfoldable pub leave : Room → Text → ℕ → RandomIndex → Result Room
unfolding remove_player settle_battle_after_leave handle_player_left
leave room player_id now random = do
  throw_if (not (has_player room.players player_id)) player_not_in_room
  settled ← settle_battle_after_leave (remove_player room player_id) player_id now
  handle_player_left settled player_id random now

-- typeof playerId !== "string" || playerId === requesterId
unfoldable pub kicked_id : Wire → Text → Result Text
kicked_id (string id) requester_id = do throw_if (id == requester_id) invalid_player; ok id
kicked_id _ requester_id = throw invalid_player

unfoldable pub kick : Room → Text → Wire → ℕ → RandomIndex → Result Room
unfolding leave kicked_id
kick room requester_id wanted now random = do
  throw_if (not (room.host_id == requester_id)) not_host
  throw_if (not (is_waiting room.status)) room_not_waiting
  player_id ← kicked_id wanted requester_id
  throw_if (not (has_player room.players player_id)) player_not_in_room
  leave room player_id now random
