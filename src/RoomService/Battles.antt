-- ===== src/RoomService/Battles.antt =====
-- `awardWordBonus` to `rematch` of RoomService.ts: the battle, its votes and its end.
use dance_sync_back_end.Base.{
  ℕ, ◌+◌, Bool, true, false, not, ◌&&◌, ◌||◌, Option, none, some, map, Text, ◌==◌, ltb, leb,
  if◌then◌else◌, includes, is_some, lookup, insert, remove, get_or, Dict,
}
use dance_sync_back_end.Errors.{
  Result, ok, throw, throw_if, ◌>>=◌, ◌>>◌, room_not_battling, invalid_message, invalid_dancer,
  invalid_voter, battle_not_started, battle_finished, not_host, room_not_finished,
}
use dance_sync_back_end.Model.{
  Room, Player, Battle, BattleResult, BattleEndReason, song_end, waiting, finished, is_battling,
  is_finished, Wire, string, null,
}
use dance_sync_back_end.ScoringService
use dance_sync_back_end.ScoringService.{zeros}
use dance_sync_back_end.RoomService.{has_player, spectators_of}

-- The battle in progress.
unfoldable pub running_battle : Room → Result Battle
running_battle room = elim room.battle [
  | none ↦ throw room_not_battling
  | some battle ↦ if is_battling room.status then ok battle else throw room_not_battling
]

unfoldable pub award_word_bonus : Room → Text → Result Room
unfolding running_battle
award_word_bonus room player_id = do
  battle ← running_battle room
  throw_if (not (includes battle.dancer_ids player_id)) invalid_dancer
  let current = get_or (lookup player_id battle.words_won) 0
  ok (record room {
    battle = some (record battle { words_won = insert player_id (current + 1) battle.words_won });
  })

-- null withdraws the vote, a string names a dancer of the battle
unfoldable pub wanted_dancer : Battle → Wire → Result (Option Text)
wanted_dancer battle null = ok none
wanted_dancer battle (string id) = do
  throw_if (not (includes battle.dancer_ids id)) invalid_dancer
  ok (some id)
wanted_dancer battle _ = throw invalid_message

abbrev pub same_vote : Option Text → Option Text → Bool
same_vote none none = true
same_vote none (some b) = false
same_vote (some a) none = false
same_vote (some a) (some b) = a == b

abbrev pub set_vote : Text → Option Text → Dict Text → Dict Text
set_vote voter_id none votes = remove voter_id votes
set_vote voter_id (some dancer_id) votes = insert voter_id dancer_id votes

-- The votes are closed once the battle is over.
unfoldable pub open_battle : Room → Result Battle
unfolding running_battle
open_battle room = do
  throw_if (is_finished room.status && is_some room.battle) battle_finished
  running_battle room

unfoldable pub cast_vote : Room → Text → Wire → ℕ → Result (Option Room)
unfolding open_battle wanted_dancer
cast_vote room voter_id dancer_id now = do
  battle ← open_battle room
  throw_if (not (has_player room.spectators voter_id)) invalid_voter
  throw_if (ltb now battle.started_at) battle_not_started
  throw_if (leb battle.ends_at now) battle_finished
  wanted ← wanted_dancer battle dancer_id
  ok (
      if same_vote (lookup voter_id battle.votes) wanted
      then none
      else some (record room {
        battle = some (record battle { votes = set_vote voter_id wanted battle.votes });
      }))

unfoldable pub vote_of : Room → Text → Option Text
vote_of room voter_id = elim room.battle [
  | none ↦ none
  | some battle ↦ lookup voter_id battle.votes
]

unfoldable pub finish_battle : Room → BattleEndReason → ℕ → Result Room
unfolding running_battle
finish_battle room reason now = do
  battle ← running_battle room
  let result = ScoringService.result battle battle.scoring
  ok (record room {
    status = finished;
    battle =
        some (record battle {
          finished_at = some now;
          end_reason = some reason;
          result = some result;
        });
    last_result = some result;
  })

unfoldable pub finish_at_deadline : Room → ℕ → Result (Option Room)
unfolding finish_battle
finish_at_deadline room now = elim room.battle [
  | none ↦ ok none
  | some battle ↦
      if not (is_battling room.status) || ltb now battle.ends_at
      then ok none
      else do next ← finish_battle room song_end now; ok (some next)
]

abbrev pub not_ready : Player → Player
not_ready p = record p { ready = false }

-- room.battle?.result ?? room.lastResult
last_result_of : Room → Option BattleResult
last_result_of room = elim room.battle [
  | none ↦ room.last_result
  | some battle ↦ elim battle.result [ none ↦ room.last_result | some result ↦ some result ]
]

unfoldable pub rematch : Room → Text → Result Room
unfolding last_result_of
rematch room requester_id = do
  throw_if (not (room.host_id == requester_id)) not_host
  throw_if (not (is_finished room.status)) room_not_finished
  let players = map not_ready room.players
  ok (record room {
    players = players;
    dancers = none;
    spectators = spectators_of players;
    status = waiting;
    battle = none;
    song_selection = none;
    selected_song = none;
    last_result = last_result_of room;
  })
