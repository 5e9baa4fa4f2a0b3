-- ===== src/UseCases/Requests/Validity.antt =====
-- The invariant of the stored rooms under the commands of application/usecases.
use dance_sync_back_end.Base.{
  ℕ, Option-cases, inl, inr, List, [], ◌∷◌, Text, lookup, Bool-cases, if◌then◌else◌,
}
use dance_sync_back_end.Errors.{Result, ok, err, Ensures}
use dance_sync_back_end.Model.{Room, Wire, string}
use dance_sync_back_end.Identity.{Unicode, Identity, validate_player, require_room_code}
use dance_sync_back_end.SongSelectionService.{RandomIndex}
use dance_sync_back_end.RoomService.{create}
use dance_sync_back_end.RoomService.Validity.{IsValid}
use dance_sync_back_end.RoomService.Validity.Lobby.{
  create-IsValid, select_role-IsValid, set_ready-IsValid,
}
use dance_sync_back_end.RoomService.Validity.Starting.{start_battle-IsValid}
use dance_sync_back_end.RoomService.Validity.Selections.{start-IsValid, expire-IsValid}
use dance_sync_back_end.RoomService.Validity.Battles.{award_word_bonus-IsValid, cast_vote-IsValid}
use dance_sync_back_end.RoomService.Validity.Departures.{kick-IsValid}
use dance_sync_back_end.RoomRepository.{Change, RoomMutation, Rooms, key, update_room, insert_room}
use dance_sync_back_end.RoomRepository.Stored.{
  AllValid, KeepsValid, lookup-IsValid, apply_change-AllValid, update-AllValid,
  insert_room-AllValid,
}
use dance_sync_back_end.UseCases.{
  Capturing, update_capturing, capture, join_change, or_throw, insert_under, create_room, join_room,
  leave_room,
}
use dance_sync_back_end.UseCases.Commands.{
  select_role, set_ready, kick_player, start_song_challenge, submit_song_phrase,
  expire_song_challenge, choose_song, auto_pick_song, start_battle, award_word_bonus, cast_vote,
  finish_battle_at_deadline, start_rematch, delete_if_empty, submit_change, delete_if_empty_change,
}
use dance_sync_back_end.UseCases.Requests.{
  Request, creates, joins, leaves, selects_role, sets_ready, kicks, starts_challenge,
  submits_phrase, challenge_expires, chooses_song, choice_expires, starts_battle, wins_word, votes,
  song_ends, rematches, reaps, serve, serve_all,
}
use dance_sync_back_end.UseCases.Requests.Changes.{
  KeepsValidBy, written-KeepsValid, leave_change-KeepsValid, host_change-KeepsValid,
  flagged-KeepsValid, deadline_change-KeepsValid, choose_change-KeepsValid,
  auto_pick_change-KeepsValid, rematch_change-KeepsValid, delete_if_empty-KeepsValid,
  join_change-KeepsValid, submit_change-KeepsValid,
}

module _ (u : Unicode) where
  module _ {B : Type 0} (code : Text) (mutate : Capturing B) (rooms : Rooms) where
    capture-AllValid :
        (current : Room) (m : Result (Change × B))
        → AllValid rooms
        → Ensures KeepsValidBy m
        → AllValid (capture u code current m rooms).1
    unfolding capture
    capture-AllValid current (err e) h k = h
    capture-AllValid current (ok (change, b)) h k =
        apply_change-AllValid u code current (ok change) rooms h k

    update_capturing-AllValid :
        ((room : Room) → IsValid room → Ensures KeepsValidBy (mutate room))
        → AllValid rooms
        → AllValid (update_capturing u code mutate rooms).1
    unfolding update_capturing
    update_capturing-AllValid keeps h = elim (Option-cases (lookup (key u code) rooms)) [
      | inl e ↦ rw (e, update_capturing) h
      | inr (room, e) ↦
          rw (e, update_capturing)
            (capture-AllValid room (mutate room) h
              (keeps room (lookup-IsValid (key u code) rooms room e h)))
    ]

  anything : {B : Type 0} (m : Result B) → Ensures (λ _. Unit {0}) m
  anything (ok b) = tt
  anything (err e) = tt

  -- A step that throws before the store is reached.
  or_throw-AllValid :
      {A B : Type 0} (P : B → Type 0) (m : Result B) (rooms : Rooms) (f : B → Result A × Rooms)
      → AllValid rooms
      → Ensures P m
      → ((b : B) → P b → AllValid (f b).1)
      → AllValid (or_throw m rooms f).1
  or_throw-AllValid P (err e) rooms f h p k = h
  or_throw-AllValid P (ok b) rooms f h p k = k b p

  inserted-AllValid :
      (room : Room) (again : Result Room × Rooms) (rooms : Rooms)
      → AllValid rooms
      → AllValid again.1
      → IsValid room
      → AllValid
          (if (insert_room u room rooms).0
            then (ok room, (insert_room u room rooms).1)
            else again).1
  inserted-AllValid room again rooms h k v = elim (Bool-cases (insert_room u room rooms).0) [
    | inl e ↦ rw e (insert_room-AllValid u room rooms v h)
    | inr e ↦ rw e k
  ]

  insert_under-AllValid :
      (host : Identity) (now : ℕ) (codes : List Text) (rooms : Rooms)
      → AllValid rooms
      → AllValid (insert_under u host now codes rooms).1
  unfolding insert_under
  insert_under-AllValid host now [] rooms h = h
  insert_under-AllValid host now (code ∷ codes) rooms h =
      or_throw-AllValid IsValid (create host code now) rooms _ h (create-IsValid host code now)
        λ room v. inserted-AllValid room _ rooms h (insert_under-AllValid host now codes rooms h) v

  create_room-AllValid :
      (id name : Wire) (now : ℕ) (codes : List Text) (rooms : Rooms)
      → AllValid rooms
      → AllValid (create_room u id name now codes rooms).1
  unfolding create_room
  create_room-AllValid id name now codes rooms h =
      or_throw-AllValid (λ _. Unit {0}) (validate_player id name) rooms _ h (anything _)
        λ host _. insert_under-AllValid host now codes rooms h

  update_room-AllValid :
      (code : Text) (mutate : RoomMutation) (rooms : Rooms)
      → ((room : Room) → IsValid room → Ensures KeepsValid (mutate room))
      → AllValid rooms
      → AllValid (update_room u code mutate rooms).1
  unfolding update_room
  update_room-AllValid = update-AllValid u

  join_room-AllValid :
      (code id name : Wire) (rooms : Rooms)
      → AllValid rooms
      → AllValid (join_room u code id name rooms).1
  unfolding join_room
  join_room-AllValid code id name rooms h =
      or_throw-AllValid (λ _. Unit {0}) (require_room_code code) rooms _ h (anything _)
        λ key _.
          or_throw-AllValid (λ _. Unit {0}) (validate_player id name) rooms _ h (anything _)
            λ player _.
              update_room-AllValid key (join_change u player) rooms
                (λ room v. join_change-KeepsValid room v u player) h

  phrase-AllValid :
      (code id : Text) (attempt : Wire) (now : ℕ) (random : RandomIndex) (rooms : Rooms)
      → AllValid rooms
      → AllValid (submit_song_phrase u code id attempt now random rooms).1
  unfolding submit_song_phrase
  phrase-AllValid code id (string s) now random rooms h =
      update_capturing-AllValid code (submit_change u id s now random) rooms
        (λ room v. submit_change-KeepsValid room v u id s now random) h
  phrase-AllValid code id _ now random rooms h = h

  serve-AllValid :
      (random : RandomIndex) (request : Request) (rooms : Rooms)
      → AllValid rooms
      → AllValid (serve u random request rooms)
  unfolding serve leave_room select_role set_ready kick_player start_song_challenge
      expire_song_challenge choose_song auto_pick_song start_battle award_word_bonus cast_vote
      finish_battle_at_deadline start_rematch delete_if_empty
  serve-AllValid random (creates id name now codes) rooms h =
      create_room-AllValid id name now codes rooms h
  serve-AllValid random (joins code id name) rooms h = join_room-AllValid code id name rooms h
  serve-AllValid random (leaves code id now) rooms h =
      update_capturing-AllValid code _ rooms (leave_change-KeepsValid id now random) h
  serve-AllValid random (selects_role code id role) rooms h =
      update_room-AllValid code _ rooms
        (λ room v. written-KeepsValid _ (select_role-IsValid room id role v)) h
  serve-AllValid random (sets_ready code id ready) rooms h =
      update_room-AllValid code _ rooms
        (λ room v. written-KeepsValid _ (set_ready-IsValid room id ready v)) h
  serve-AllValid random (kicks code host id now) rooms h =
      update_room-AllValid code _ rooms
        (λ room v. written-KeepsValid _ (kick-IsValid room host id now random v)) h
  serve-AllValid random (starts_challenge code host o) rooms h =
      update_room-AllValid code _ rooms
        (λ room v. host_change-KeepsValid room v host _ (start-IsValid room o v)) h
  serve-AllValid random (submits_phrase code id attempt now) rooms h =
      phrase-AllValid code id attempt now random rooms h
  serve-AllValid random (challenge_expires code challenge_id now) rooms h =
      update_capturing-AllValid code _ rooms
        (λ room v. flagged-KeepsValid room v _ (expire-IsValid u room v random now challenge_id)) h
  serve-AllValid random (chooses_song code id song_id o) rooms h =
      update_capturing-AllValid code _ rooms
        (λ room v. choose_change-KeepsValid room v id song_id o) h
  serve-AllValid random (choice_expires code challenge_id o) rooms h =
      update_capturing-AllValid code _ rooms
        (λ room v. auto_pick_change-KeepsValid room v challenge_id random o) h
  serve-AllValid random (starts_battle code host ids o) rooms h =
      update_room-AllValid code _ rooms
        (λ room v. host_change-KeepsValid room v host _ (start_battle-IsValid room ids o v)) h
  serve-AllValid random (wins_word code id) rooms h =
      update_room-AllValid code _ rooms
        (λ room v. written-KeepsValid _ (award_word_bonus-IsValid room id v)) h
  serve-AllValid random (votes code voter dancer now) rooms h =
      update_capturing-AllValid code _ rooms
        (λ room v. flagged-KeepsValid room v _ (cast_vote-IsValid room voter dancer now v)) h
  serve-AllValid random (song_ends code battle_id now) rooms h =
      update_capturing-AllValid code _ rooms
        (λ room v. deadline_change-KeepsValid room v battle_id now) h
  serve-AllValid random (rematches code host) rooms h =
      update_capturing-AllValid code _ rooms (λ room v. rematch_change-KeepsValid room v host) h
  serve-AllValid random (reaps code) rooms h =
      update-AllValid u code delete_if_empty_change rooms
        (λ room v. delete_if_empty-KeepsValid room v) h

-- When every stored room is in order (AllValid), every stored room is in order after any sequence
-- of commands: at most seven distinct players with the host among them, spectators that match the
-- roles, a running battle of at least two distinct dancers who are in the room, votes of spectators
-- in the room for dancers of the battle, a result in every finished battle, and a song chooser who
-- is in the room.
pub serve_all-AllValid :
    (u : Unicode) (requests : List (RandomIndex × Request)) (rooms : Rooms)
    → AllValid rooms
    → AllValid (serve_all u requests rooms)
unfolding serve_all
serve_all-AllValid u [] rooms h = h
serve_all-AllValid u ((random, request) ∷ requests) rooms h =
    serve_all-AllValid u requests (serve u random request rooms)
      (serve-AllValid u random request rooms h)
