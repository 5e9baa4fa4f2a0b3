-- ===== src/RoomRepository/Versions.antt =====
-- The versions of stored rooms under `update` of InMemoryRoomRepository.ts.
use dance_sync_back_end.Base.{
  ◌+◌, ◌≡◌, refl, false, inl, inr, Option, none, some, Option-cases, Bool-cases, Text, ◌==◌, lookup,
  lookup-insert, lookup-remove, nat_eq, arith,
}
use dance_sync_back_end.Errors.{Result, ok, err}
use dance_sync_back_end.Model.{Room}
use dance_sync_back_end.Identity.{Unicode}
use dance_sync_back_end.RoomRepository.{
  Change, same, write, delete, RoomMutation, Rooms, key, apply_change, update,
}

-- What one update may do to the room under a key: nothing, one write, or a deletion.
pub data Evolves (before after : Option Room) : Type 0 where
  unchanged : after ≡ before → Evolves before after
  rewritten :
      (old new : Room)
      → before ≡ some old
      → after ≡ some new
      → new.version ≡ old.version + 1
      → Evolves before after
  deleted : (old : Room) → before ≡ some old → after ≡ none → Evolves before after

module _ (u : Unicode) where
  apply_change-Evolves :
      (code : Text) (current : Room) (change : Result Change) (rooms : Rooms) (j : Text)
      → lookup (key u code) rooms ≡ some current
      → Evolves (lookup j rooms) (lookup j (apply_change u code current change rooms).1)
  unfolding apply_change
  apply_change-Evolves code current (err e) rooms j h = unchanged refl
  apply_change-Evolves code current (ok same) rooms j h = unchanged refl
  apply_change-Evolves code current (ok delete) rooms j h = elim (Bool-cases (key u code == j)) [
    | inl hit ↦ deleted current (ground arith) (ground (arith, lookup-remove (key u code) j rooms))
    | inr miss ↦ unchanged (ground (arith, lookup-remove (key u code) j rooms))
  ]
  apply_change-Evolves code current (ok (write next)) rooms j h =
      elim (Bool-cases (nat_eq next.version current.version)) [
        | inr stale ↦ unchanged (ground arith)
        | inl fresh ↦ elim (Bool-cases (key u code == j)) [
          | inl hit ↦
              rewritten current (record next { version = current.version + 1 }) (ground arith)
                (ground (
                  arith,
                  lookup-insert (key u code) j (record next { version = current.version + 1 })
                      rooms,
                ))
                refl
          | inr miss ↦ unchanged (
              ground (
                arith,
                lookup-insert (key u code) j (record next { version = current.version + 1 }) rooms,
              ))
        ]
      ]

  apply_change_elsewhere :
      (code : Text) (current : Room) (change : Result Change) (rooms : Rooms) (j : Text)
      → (key u code == j) ≡ false
      → lookup j (apply_change u code current change rooms).1 ≡ lookup j rooms
  unfolding apply_change
  apply_change_elsewhere code current (err e) rooms j h = refl
  apply_change_elsewhere code current (ok same) rooms j h = refl
  apply_change_elsewhere code current (ok delete) rooms j h =
      ground (arith, lookup-remove (key u code) j rooms)
  apply_change_elsewhere code current (ok (write next)) rooms j h =
      ground
        (arith, lookup-insert (key u code) j (record next { version = current.version + 1 }) rooms)

  -- Whatever the mutation decides, an update leaves the room under each key as it is, writes it
  -- once with the next version, or deletes it; and it does not touch the room under any other key.
  pub update-Evolves :
      (code : Text) (mutate : RoomMutation) (rooms : Rooms) (j : Text)
      → Evolves (lookup j rooms) (lookup j (update u code mutate rooms).1)
        × ((key u code == j) ≡ false → lookup j (update u code mutate rooms).1 ≡ lookup j rooms)
  unfolding update
  update-Evolves code mutate rooms j = elim (Option-cases (lookup (key u code) rooms)) [
    | inl e ↦ rw (e, update) (unchanged refl, λ _. refl)
    | inr (room, e) ↦
        rw (e, update)
          (
            apply_change-Evolves code room (mutate room) rooms j e,
            apply_change_elsewhere code room (mutate room) rooms j,
          )
  ]
