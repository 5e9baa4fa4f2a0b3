-- ===== src/UseCases/Commands.antt =====
-- The other commands on rooms of application/usecases, each named after its class.
use dance_sync_back_end.Base.{
  ℕ, Bool, true, false, not, Option, none, some, List, [], ◌∷◌, filter, length, nat_eq, Text, ◌==◌,
  keys, is_some, if◌then◌else◌,
}
use dance_sync_back_end.Errors.{
  Result, ok, err, domain_error, range_error, plain_error, out_of_fuel, throw, throw_if,
  room_not_found, not_host, invalid_message, ◌>>=◌, ◌>>◌,
}
use dance_sync_back_end.Model.{Room, Wire, string, missing}
use dance_sync_back_end.Identity.{Unicode}
use dance_sync_back_end.SongSelectionService.{
  RandomIndex, StartChallengeOptions, SubmitOutcome, start,
}
use dance_sync_back_end.SongSelectionService.Attempts.{submit, expire}
use dance_sync_back_end.SongSelectionService.Choices.{choose, auto_pick}
use dance_sync_back_end.RoomService
use dance_sync_back_end.RoomService.{has_player}
use dance_sync_back_end.RoomService.Starting.{StartBattleOptions}
use dance_sync_back_end.RoomService.Starting
use dance_sync_back_end.RoomService.Battles
use dance_sync_back_end.RoomService.Battles.{vote_of, finish_at_deadline}
use dance_sync_back_end.RoomService.Departures
use dance_sync_back_end.RoomRepository.{
  Change, same, write, delete, RoomMutation, Rooms, find_by_code, list_codes, update, update_room,
}
use dance_sync_back_end.UseCases.{written, write_if, Capturing, update_capturing, votes_of}

-- `rooms.update` failing with ROOM_NOT_FOUND is caught.
abbrev pub unless_missing {ℓ} : {A : Type ℓ} → A → Result A → Result A
unless_missing a (err (domain_error room_not_found)) = ok a
unless_missing a r = r

-- FinishBattleAtDeadline: a newer battle in the same room is left alone.
abbrev pub deadline_change : Text → ℕ → Capturing Bool
deadline_change battle_id now room = elim room.battle [
  | none ↦ ok (same, false)
  | some battle ↦
      if battle.id == battle_id
      then (do next ← finish_at_deadline room now; ok (write_if next, is_some next))
      else ok (same, false)
]

-- StartSongChallenge and StartBattle are for the host.
abbrev pub hosted_by : Room → Text → Result Room → Result Change
hosted_by room requester_id next = do
  throw_if (not (room.host_id == requester_id)) not_host
  written next

-- StartRematch: the players whose vote is cleared.
abbrev pub rematch_change : Text → Capturing (List Text)
rematch_change requester_id room = do
  next ← Battles.rematch room requester_id
  ok (write next, filter (λ id. has_player next.players id) (keys (votes_of room)))

abbrev pub vote_change : Text → Wire → ℕ → Capturing Bool
vote_change voter_id dancer_id now room = do
  next ← Battles.cast_vote room voter_id dancer_id now
  ok (write_if next, is_some next)

voted : Text → Result (Option Room × Bool) → Result (Option Room × (Option Text × Bool))
unfolding vote_of
voted voter_id r = do
  (room, changed) ← r
  ok (room, (elim room [ none ↦ none | some stored ↦ vote_of stored voter_id ], changed))

abbrev pub expire_change : Text → RandomIndex → ℕ → Capturing Bool
expire_change challenge_id random now room = do
  next ← expire room challenge_id random now
  ok (write_if next, is_some next)

-- The battle starts with the chosen song, or the error of the domain is swallowed.
unfoldable pub started_or : Room → Result Room → Result (Room × Bool)
started_or chosen (ok room) = ok (room, true)
started_or chosen (err (domain_error code)) = ok (chosen, false)
started_or chosen (err range_error) = err range_error
started_or chosen (err plain_error) = err plain_error
started_or chosen (err out_of_fuel) = err out_of_fuel

unfoldable pub start_if_possible : Room → StartBattleOptions → Result (Room × Bool)
unfolding started_or
start_if_possible chosen o =
    if is_some chosen.song_selection
    then started_or chosen (Starting.start_battle chosen missing o)
    else ok (chosen, false)

abbrev pub choose_change : Text → Text → StartBattleOptions → Capturing Bool
choose_change player_id song_id o room = do
  chosen ← choose room player_id song_id
  (next, started) ← start_if_possible chosen o
  ok (write next, started)

-- picked and battleStarted
abbrev pub picked_change : Option Room → StartBattleOptions → Result (Change × (Bool × Bool))
picked_change none o = ok (same, (false, false))
picked_change (some chosen) o = do
  (next, started) ← start_if_possible chosen o
  ok (write next, (true, started))

abbrev pub auto_pick_change : Text → RandomIndex → StartBattleOptions → Capturing (Bool × Bool)
auto_pick_change challenge_id random o room = do
  picked ← auto_pick room challenge_id o.now random
  picked_change picked o

-- ReapRooms.deleteIfEmpty
abbrev pub delete_if_empty_change : RoomMutation
delete_if_empty_change room = if nat_eq (length room.players) 0 then ok delete else ok same

module _ (u : Unicode) where
  abbrev pub submit_change : Text → Text → ℕ → RandomIndex → Capturing SubmitOutcome
  submit_change player_id attempt now random room = do
    (next, outcome) ← submit u room player_id attempt now random
    ok (write next, outcome)

  unfoldable pub select_role : Text → Text → Wire → Rooms → Result Room × Rooms
  select_role code id role =
      update_room u code (λ room. written (RoomService.select_role room id role))

  unfoldable pub set_ready : Text → Text → Wire → Rooms → Result Room × Rooms
  set_ready code id ready =
      update_room u code (λ room. written (RoomService.set_ready room id ready))

  unfoldable pub kick_player : Text → Text → Wire → ℕ → RandomIndex → Rooms → Result Room × Rooms
  kick_player code requester_id id now random =
      update_room u code (λ room. written (Departures.kick room requester_id id now random))

  unfoldable pub start_song_challenge :
      Text → Text → StartChallengeOptions → Rooms → Result Room × Rooms
  start_song_challenge code requester_id o =
      update_room u code (λ room. hosted_by room requester_id (start room o))

  unfoldable pub start_battle :
      Text → Text → Wire → StartBattleOptions → Rooms → Result Room × Rooms
  start_battle code requester_id dancer_ids o =
      update_room u code
        (λ room. hosted_by room requester_id (Starting.start_battle room dancer_ids o))

  unfoldable pub award_word_bonus : Text → Text → Rooms → Result Room × Rooms
  award_word_bonus code id = update_room u code (λ room. written (Battles.award_word_bonus room id))

  unfoldable pub submit_song_phrase :
      Text → Text → Wire → ℕ → RandomIndex → Rooms → Result (Option Room × SubmitOutcome) × Rooms
  submit_song_phrase code id attempt now random rooms = elim attempt [
    | string s ↦ update_capturing u code (submit_change id s now random) rooms
    | _ ↦ (throw invalid_message, rooms)
  ]

  unfoldable pub expire_song_challenge :
      Text → Text → RandomIndex → ℕ → Rooms → Result (Option Room) × Rooms
  expire_song_challenge code challenge_id random now rooms =
      let (r, after) = update_capturing u code (expire_change challenge_id random now) rooms in
      (unless_missing none (do (room, expired) ← r; ok (if expired then room else none)), after)

  unfoldable pub choose_song :
      Text → Text → Text → StartBattleOptions → Rooms → Result (Option Room × Bool) × Rooms
  choose_song code id song_id o = update_capturing u code (choose_change id song_id o)

  unfoldable pub auto_pick_song :
      Text
      → Text
      → RandomIndex
      → StartBattleOptions
      → Rooms
      → Result (Option Room × (Bool × Bool)) × Rooms
  auto_pick_song code challenge_id random o =
      update_capturing u code (auto_pick_change challenge_id random o)

  -- the vote that the voter has then, and whether it changed
  unfoldable pub cast_vote :
      Text → Text → Wire → ℕ → Rooms → Result (Option Room × (Option Text × Bool)) × Rooms
  unfolding voted
  cast_vote code voter_id dancer_id now rooms =
      let (r, after) = update_capturing u code (vote_change voter_id dancer_id now) rooms in
      (voted voter_id r, after)

  unfoldable pub finish_battle_at_deadline :
      Text → Text → ℕ → Rooms → Result (Option Room × Bool) × Rooms
  finish_battle_at_deadline code battle_id now rooms =
      let (r, after) = update_capturing u code (deadline_change battle_id now) rooms in
      (unless_missing (none, false) r, after)

  unfoldable pub start_rematch : Text → Text → Rooms → Result (Option Room × List Text) × Rooms
  start_rematch code requester_id = update_capturing u code (rematch_change requester_id)

  unfoldable pub delete_if_empty : Text → Rooms → Result Bool × Rooms
  delete_if_empty code rooms =
      let (r, after) = update u code delete_if_empty_change rooms in
      (unless_missing false (do found ← r; ok (not (is_some found))), after)

  unfoldable pub found_rooms : Rooms → List Text → List Room
  found_rooms rooms [] = []
  found_rooms rooms (code ∷ codes) = elim (find_by_code u code rooms) [
    | none ↦ found_rooms rooms codes
    | some room ↦ room ∷ found_rooms rooms codes
  ]

  -- ReapRooms.list
  unfoldable pub list_rooms : Rooms → List Room
  unfolding found_rooms
  list_rooms rooms = found_rooms rooms (list_codes u rooms)
