-- ===== src/MatchRecordService.antt =====
-- domain/services/MatchRecordService.ts, and application/usecases/RecordMatchResult.ts with the port
-- domain/ports/MatchResultPublisher.ts: the publisher, which calls another service, is an argument,
-- as the answer to each try. Waiting and logging are not modelled, but what is waited for is.
pub mod Deliveries
pub mod Records
use dance_sync_back_end.Base.{
  ℕ, zero, suc, ◌+◌, ◌-◌, ◌*◌, ◌^◌, Bool, true, false, not, Option, none, some, List, [], ◌∷◌, ◌++◌,
  map, Text, Dict, lookup, insert_all, get_or, includes, is_some, leb, if◌then◌else◌,
}
use dance_sync_back_end.Model.{
  Room, Player, Battle, BattleResult, BattleEndReason, Standing, RosterEntry, Song, MatchRecord,
  MatchParticipantRecord, dancer, spectator, is_finished,
}

-- new Map(standings.map((s) => [s.dancerId, s]))
abbrev pub standings_by_id : List Standing → Dict Standing
standings_by_id standings = insert_all [] (map (λ (s : Standing). (s.dancer_id, s)) standings)

abbrev pub dancer_record : Battle → Dict Standing → RosterEntry → MatchParticipantRecord
dancer_record battle standings entry =
    let standing = lookup entry.id standings in
    record {
      player_id = entry.id;
      display_name = entry.display_name;
      role = dancer;
      votes = elim standing [ none ↦ none | some s ↦ some s.votes ];
      words_won = some (elim standing [
        | none ↦ get_or (lookup entry.id battle.words_won) 0
        | some s ↦ s.words_won
      ]);
      score = elim standing [ none ↦ none | some s ↦ some s.score ];
      rank = elim standing [ none ↦ none | some s ↦ some s.rank ];
      left_early = not (includes battle.dancer_ids entry.id);
    }

abbrev pub spectator_record : List Text → RosterEntry → MatchParticipantRecord
spectator_record present entry = record {
  player_id = entry.id;
  display_name = entry.display_name;
  role = spectator;
  votes = none;
  words_won = none;
  score = none;
  rank = none;
  left_early = not (includes present entry.id);
}

abbrev pub record_of : Room → Battle → BattleResult → ℕ → BattleEndReason → MatchRecord
record_of room battle result finished_at reason = record {
  id = battle.id;
  room_code = room.code;
  song_id = elim battle.song [ none ↦ none | some song ↦ some song.id ];
  song_title = elim battle.song [ none ↦ none | some song ↦ some song.title ];
  started_at = battle.started_at;
  finished_at = finished_at;
  winner_player_id = result.winner_id;
  end_reason = reason;
  participants =
      map (dancer_record battle (standings_by_id result.standings)) battle.roster
      ++ map (spectator_record (map (λ (p : Player). p.id) room.players)) battle.audience;
}

-- The record of a battle with a result, an end and a reason for it.
abbrev pub record_of_battle : Room → Battle → Option MatchRecord
record_of_battle room battle = elim battle.result [
  | none ↦ none
  | some result ↦ elim battle.finished_at [
    | none ↦ none
    | some finished_at ↦ elim battle.end_reason [
      | none ↦ none
      | some reason ↦ some (record_of room battle result finished_at reason)
    ]
  ]
]

unfoldable pub from_finished_room : Room → Option MatchRecord
from_finished_room room = elim room.battle [
  | none ↦ none
  | some battle ↦ if is_finished room.status then record_of_battle room battle else none
]

-- How a try to publish ends: with the match stored, with a MatchPublishError that is not retryable,
-- or with any other error.
pub data Publication : Type 0 where
  stored refused failed : Publication

-- What `execute` returns, how often it tried, and how long it waited after each failed try.
pub record Delivery : Type 0 where
  pub delivered : Bool
  pub tries : ℕ
  pub waits : List ℕ

abbrev last_try : Bool → ℕ → Delivery
last_try delivered attempt = record { delivered = delivered; tries = attempt; waits = [] }

abbrev wait_for : ℕ → Delivery → Delivery
wait_for ms d = record d { waits = ms ∷ d.waits }

-- The `for` loop from try `attempt` on, with `more` tries after it.
unfoldable pub try_from : ℕ → (ℕ → Publication) → ℕ → ℕ → Delivery
try_from base_delay_ms publish zero attempt = elim (publish attempt) [
  | stored ↦ last_try true attempt
  | refused ↦ last_try false attempt
  | failed ↦ last_try false attempt
]
try_from base_delay_ms publish (suc more) attempt = elim (publish attempt) [
  | stored ↦ last_try true attempt
  | refused ↦ last_try false attempt
  | failed ↦
      wait_for (base_delay_ms * 2 ^ (attempt - 1))
        (try_from base_delay_ms publish more (attempt + 1))
]

-- Math.max(1, options.attempts) tries
unfoldable pub record_match_result : ℕ → ℕ → (ℕ → Publication) → Room → Delivery
unfolding try_from from_finished_room
record_match_result attempts base_delay_ms publish room = elim (from_finished_room room) [
  | none ↦ record { delivered = false; tries = 0; waits = [] }
  | some match_record ↦ try_from base_delay_ms publish (attempts - 1) 1
]
