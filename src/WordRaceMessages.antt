-- ===== src/WordRaceMessages.antt =====
-- infrastructure/ws/wordRaceMessages.ts: what a room is told when a word round starts or ends.
use dance_sync_back_end.Base.{
  ℕ, Bool, true, false, Option, none, some, [], ◌∷◌, Text, Dict, lookup, length, if◌then◌else◌,
}
use dance_sync_back_end.Model.{WordRace, WordRound, WordRoundStatus, won}
use dance_sync_back_end.RoomDto.{time_left}

pub record WordRoundStartedPayload : Type 0 where
  pub room_code : Text
  pub round_id : Text
  pub round_number : ℕ
  pub total_rounds : ℕ
  pub word : Text
  pub expires_in_ms : ℕ

pub data RoundEndReason : Type 0 where
  by_winner by_expiry : RoundEndReason

pub record WordRoundEndedPayload : Type 0 where
  pub room_code : Text
  pub round_id : Text
  pub round_number : ℕ
  pub total_rounds : ℕ
  pub word : Text
  pub winner_id : Option Text
  pub winner_name : Option Text
  pub reason : RoundEndReason
  pub wins : Dict ℕ
  pub bonus_points : ℕ

abbrev pub is_won : WordRoundStatus → Bool
is_won won = true
is_won _ = false

unfoldable pub round_started_payload : WordRace → WordRound → ℕ → WordRoundStartedPayload
round_started_payload race round now = record {
  room_code = race.room_code;
  round_id = round.id;
  round_number = round.number;
  total_rounds = length race.rounds;
  word = round.word;
  expires_in_ms = time_left round.closes_at now;
}

-- winnerId ? (race.participantNames[winnerId] ?? null) : null, where an empty id is falsy
winner_name_of : WordRace → Option Text → Option Text
winner_name_of race none = none
winner_name_of race (some []) = none
winner_name_of race (some (c ∷ id)) = lookup (c ∷ id) race.participant_names

unfoldable pub round_ended_payload : WordRace → WordRound → ℕ → WordRoundEndedPayload
unfolding winner_name_of
round_ended_payload race round bonus_points =
    let winner_id = if is_won round.status then round.winner_id else none in
    record {
      room_code = race.room_code;
      round_id = round.id;
      round_number = round.number;
      total_rounds = length race.rounds;
      word = round.word;
      winner_id = winner_id;
      winner_name = winner_name_of race winner_id;
      reason = if is_won round.status then by_winner else by_expiry;
      wins = race.wins;
      bonus_points = if is_won round.status then bonus_points else 0;
    }
