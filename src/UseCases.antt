-- ===== src/UseCases.antt =====
-- application/usecases: the commands on rooms. Each takes the stored rooms and returns its reply with
-- the rooms after it. The time, the random index and fresh ids are arguments.
pub mod Commands
pub mod Requests
pub mod WordRaces
pub mod Chat
pub mod Creations
use dance_sync_back_end.Base.{
  ℕ, ◌+◌, ◌≡◌, Bool, true, false, not, ◌&&◌, ◌||◌, Option, none, some, List, [], ◌∷◌, map, filter,
  find, length, leb, ltb, nat_eq, Text, ◌==◌, Dict, lookup, has, keys, insert, remove, values,
  is_some, if◌then◌else◌,
}
use dance_sync_back_end.Errors.{
  Result, ok, err, domain_error, range_error, plain_error, out_of_fuel, throw, throw_if,
  room_not_found, not_host, invalid_message, player_not_in_room, ◌>>=◌, ◌>>◌,
}
use dance_sync_back_end.Model.{
  Room, Player, Battle, Wire, string, missing, Setting, is_battling, is_finished,
}
use dance_sync_back_end.Identity.{Unicode, Identity, validate_player, require_room_code}
use dance_sync_back_end.SongSelectionService.{
  RandomIndex, StartChallengeOptions, SubmitOutcome, start,
}
use dance_sync_back_end.SongSelectionService.Attempts.{submit, expire}
use dance_sync_back_end.SongSelectionService.Choices.{choose, auto_pick}
use dance_sync_back_end.RoomService
use dance_sync_back_end.RoomService.{has_player, join, select_role, set_ready}
use dance_sync_back_end.RoomService.Starting.{StartBattleOptions, start_battle}
use dance_sync_back_end.RoomService.Battles.{
  award_word_bonus, cast_vote, vote_of, finish_at_deadline, rematch,
}
use dance_sync_back_end.RoomService.Departures.{leave, kick}
use dance_sync_back_end.RoomRepository.{
  Change, same, write, delete, RoomMutation, Rooms, key, find_by_code, list_codes, insert_room,
  apply_change, update, update_room,
}

abbrev pub written : Result Room → Result Change
written r = do room ← r; ok (write room)

-- The new room, or the very room it was given.
abbrev pub write_if : Option Room → Change
write_if none = same
write_if (some room) = write room

-- What a mutation decides, and the values it hands to the variables around it.
abbrev pub Capturing {ℓ} : Type ℓ → Type ℓ
Capturing B = Room → Result (Change × B)

abbrev pub votes_of : Room → Dict Text
votes_of room = elim room.battle [ none ↦ [] | some battle ↦ battle.votes ]

pub record Departure : Type 0 where
  pub battle_finished : Bool
  pub discarded_voter_ids : List Text

abbrev pub departure_of : Room → Room → Text → Departure
departure_of current updated player_id = record {
  battle_finished = is_battling current.status && is_finished updated.status;
  discarded_voter_ids =
      filter (λ v. not (v == player_id) && not (has v (votes_of updated)))
        (keys (votes_of current));
}

-- Removing the last player deletes the room.
abbrev pub store_or_delete : Room → Change
store_or_delete room = if nat_eq (length room.players) 0 then delete else write room

abbrev pub leave_change : Text → ℕ → RandomIndex → Capturing Departure
leave_change player_id now random current = do
  updated ← leave current player_id now random
  ok (store_or_delete updated, departure_of current updated player_id)

-- What may throw before the store is reached.
abbrev pub or_throw {ℓ κ ι} :
    {A : Type ℓ} {B : Type κ} {S : Type ι} → Result B → S → (B → Result A × S) → Result A × S
or_throw (err e) store f = (err e, store)
or_throw (ok b) store f = f b

module _ (u : Unicode) where
  module _ {ℓ} {B : Type ℓ} where
    pair_with : B → Result (Option Room) × Rooms → Result (Option Room × B) × Rooms
    pair_with b (r, rooms) = (do room ← r; ok (room, b), rooms)

    unfoldable pub capture :
        Text → Room → Result (Change × B) → Rooms → Result (Option Room × B) × Rooms
    unfolding pair_with apply_change
    capture code current (err e) rooms = (err e, rooms)
    capture code current (ok (change, b)) rooms =
        pair_with b (apply_change u code current (ok change) rooms)

    -- `rooms.update` with a mutation that assigns to captured variables
    unfoldable pub update_capturing : Text → Capturing B → Rooms → Result (Option Room × B) × Rooms
    unfolding capture
    update_capturing code mutate rooms = elim (lookup (key u code) rooms) [
      | none ↦ (throw room_not_found, rooms)
      | some current ↦ capture code current (mutate current) rooms
    ]

  -- CreateRoom: the codes that `generateRoomCode` returns, one after the other.
  unfoldable pub insert_under : Identity → ℕ → List Text → Rooms → Result Room × Rooms
  insert_under host now [] rooms = (err out_of_fuel, rooms)
  insert_under host now (code ∷ codes) rooms =
      let again = insert_under host now codes rooms in
      or_throw (RoomService.create host code now) rooms λ room.
        let (stored, after) = insert_room u room rooms in if stored then (ok room, after) else again

  unfoldable pub create_room : Wire → Wire → ℕ → List Text → Rooms → Result Room × Rooms
  unfolding insert_under
  create_room host_id display_name now codes rooms =
      or_throw (validate_player host_id display_name) rooms
        λ host. insert_under host now codes rooms

  abbrev pub join_change : Identity → RoomMutation
  join_change player room =
      if has_player room.players player.id then ok same else written (join u room player)

  unfoldable pub join_room : Wire → Wire → Wire → Rooms → Result Room × Rooms
  join_room room_code player_id display_name rooms =
      or_throw (require_room_code room_code) rooms λ code.
        or_throw (validate_player player_id display_name) rooms
          λ player. update_room u code (join_change player) rooms

  unfoldable pub leave_room :
      Text → Text → ℕ → RandomIndex → Rooms → Result (Option Room × Departure) × Rooms
  unfolding update_capturing
  leave_room code player_id now random rooms =
      update_capturing code (leave_change player_id now random) rooms
