-- ===== src/RoomRepository.antt =====
-- domain/ports/RoomRepository.ts and infrastructure/persistence/InMemoryRoomRepository.ts, with
-- `updateRoom` of application/roomUpdates.ts. Each method is one synchronous block of the source, so
-- it is one step here; copies (structuredClone) need no counterpart, since values are immutable.
pub mod Stored
pub mod Versions
use dance_sync_back_end.Base.{
  ℕ, ◌+◌, ◌≡◌, Bool, true, false, not, Option, none, some, List, [], ◌∷◌, map, Text, ◌==◌, Dict,
  lookup, has, insert, remove, values, nat_eq, if◌then◌else◌,
}
use dance_sync_back_end.Errors.{Result, ok, err, plain_error, throw, room_not_found, ◌>>=◌}
use dance_sync_back_end.Model.{Room}
use dance_sync_back_end.Identity.{Unicode}

-- What a RoomMutation decides: the very room it was given, a new room, or null.
pub data Change : Type 0 where
  same : Change
  write : Room → Change
  delete : Change

abbrev pub RoomMutation : Type 0
RoomMutation = Room → Result Change

-- The Map of the repository.
abbrev pub Rooms : Type 0
Rooms = Dict Room

module _ (u : Unicode) where
  abbrev pub key : Text → Text
  key code = u.to_upper_case code

  unfoldable pub find_by_code : Text → Rooms → Option Room
  find_by_code code rooms = lookup (key code) rooms

  unfoldable pub list_codes : Rooms → List Text
  list_codes rooms = map (λ room. room.code) (values rooms)

  unfoldable pub insert_room : Room → Rooms → Bool × Rooms
  insert_room room rooms =
      if has (key room.code) rooms
      then (false, rooms)
      else (true, insert (key room.code) room rooms)

  -- The change that `mutate` decided on for the stored room `current`.
  unfoldable pub apply_change : Text → Room → Result Change → Rooms → Result (Option Room) × Rooms
  apply_change code current (err e) rooms = (err e, rooms)
  apply_change code current (ok same) rooms = (ok (some current), rooms)
  apply_change code current (ok delete) rooms = (ok none, remove (key code) rooms)
  apply_change code current (ok (write next)) rooms =
      let stored = record next { version = current.version + 1 } in
      if not (nat_eq next.version current.version)
      then (err plain_error, rooms)
      else (ok (some stored), insert (key code) stored rooms)

  unfoldable pub update : Text → RoomMutation → Rooms → Result (Option Room) × Rooms
  unfolding apply_change
  update code mutate rooms = elim (lookup (key code) rooms) [
    | none ↦ (throw room_not_found, rooms)
    | some current ↦ apply_change code current (mutate current) rooms
  ]

  -- updateRoom: the room that is stored, for mutations that keep it
  kept : Result (Option Room) → Result Room
  kept r = do found ← r; elim found [ none ↦ err plain_error | some room ↦ ok room ]

  unfoldable pub update_room : Text → RoomMutation → Rooms → Result Room × Rooms
  unfolding kept
  update_room code mutate rooms = let (r, after) = update code mutate rooms in (kept r, after)
