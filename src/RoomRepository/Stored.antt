-- ===== src/RoomRepository/Stored.antt =====
-- The stored rooms under `insert` and `update` of InMemoryRoomRepository.ts, and the invariant.
use dance_sync_back_end.Base.{
  ℕ, ◌+◌, ◌≡◌, subst, not, inl, inr, some, Option-cases, Bool-cases, [], ◌∷◌, Text, ◌==◌, lookup,
  nat_eq, arith, All, All-insert, All-remove,
}
use dance_sync_back_end.Errors.{Result, ok, err, Ensures}
use dance_sync_back_end.Model.{Room, RoomStatus, waiting, battling, finished}
use dance_sync_back_end.Identity.{Unicode}
use dance_sync_back_end.RoomService.Validity.{IsValid, Phase}
use dance_sync_back_end.RoomRepository.{
  Change, same, write, delete, RoomMutation, Rooms, key, apply_change, update, insert_room,
}

-- Every stored room is in order.
abbrev pub AllValid : Rooms → Type 0
AllValid rooms = All (λ e. IsValid e.1) rooms

abbrev pub KeepsValid : Change → Type 0
KeepsValid same = Unit {0}
KeepsValid (write room) = IsValid room
KeepsValid delete = Unit {0}

version-Phase :
    (room : Room) (n : ℕ) (s : RoomStatus) → Phase room s → Phase (record room { version = n }) s
version-Phase room n waiting h = h
version-Phase room n battling (b, e, r) = (
  b,
  e,
  record {
    distinct = r.distinct;
    enough = r.enough;
    competing = r.competing;
    votes = r.votes;
    one_each = r.one_each;
    unsettled = r.unsettled;
  },
)
version-Phase room n finished h = h

version-IsValid : (room : Room) (n : ℕ) → IsValid room → IsValid (record room { version = n })
version-IsValid room n v = record {
  distinct = v.distinct;
  few = v.few;
  hosted = v.hosted;
  seated = v.seated;
  phase = version-Phase room n room.status v.phase;
  selection = v.selection;
}

pub lookup-IsValid :
    (k : Text) (rooms : Rooms) (room : Room)
    → lookup k rooms ≡ some room
    → AllValid rooms
    → IsValid room
lookup-IsValid k [] room e h = cc
lookup-IsValid k ((j, r) ∷ rooms) room e h = elim (Bool-cases (j == k)) [
  | inl hit ↦ subst IsValid (ground arith) h.0
  | inr miss ↦ lookup-IsValid k rooms room (ground arith) h.1
]

module _ (u : Unicode) where
  pub apply_change-AllValid :
      (code : Text) (current : Room) (change : Result Change) (rooms : Rooms)
      → AllValid rooms
      → Ensures KeepsValid change
      → AllValid (apply_change u code current change rooms).1
  unfolding apply_change
  apply_change-AllValid code current (err e) rooms h k = h
  apply_change-AllValid code current (ok same) rooms h k = h
  apply_change-AllValid code current (ok delete) rooms h k =
      All-remove (λ e. IsValid e.1) (key u code) rooms h
  apply_change-AllValid code current (ok (write next)) rooms h k =
      elim (Bool-cases (not (nat_eq next.version current.version))) [
        | inl stale ↦ rw stale h
        | inr fresh ↦ rw fresh (
            All-insert (λ e. IsValid e.1) (key u code)
              (record next { version = current.version + 1 }) rooms
              (version-IsValid next (current.version + 1) k) h)
      ]

  pub update-AllValid :
      (code : Text) (mutate : RoomMutation) (rooms : Rooms)
      → ((room : Room) → IsValid room → Ensures KeepsValid (mutate room))
      → AllValid rooms
      → AllValid (update u code mutate rooms).1
  unfolding update
  update-AllValid code mutate rooms keeps h = elim (Option-cases (lookup (key u code) rooms)) [
    | inl e ↦ rw (e, update) h
    | inr (room, e) ↦
        rw (e, update)
          (apply_change-AllValid code room (mutate room) rooms h
            (keeps room (lookup-IsValid (key u code) rooms room e h)))
  ]

  pub insert_room-AllValid :
      (room : Room) (rooms : Rooms)
      → IsValid room
      → AllValid rooms
      → AllValid (insert_room u room rooms).1
  unfolding insert_room
  insert_room-AllValid room rooms v h =
      ground (arith, h, All-insert (λ e. IsValid e.1) (key u room.code) room rooms v h)
