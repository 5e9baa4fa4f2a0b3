-- ===== src/UseCases/Creations.antt =====
-- The loop of CreateRoom.ts over the codes that are drawn.
use dance_sync_back_end.Base.{
  ℕ, ◌≡◌, refl, Bool, true, false, not, none, some, List, [], ◌∷◌, Text, ◌==◌, has, lookup, insert,
  lookup-insert, eq_refl, any, arith, inl, inr, Bool-cases,
}
use dance_sync_back_end.Errors.{ok}
use dance_sync_back_end.Model.{Room, Wire, string}
use dance_sync_back_end.Identity.{Unicode, Identity, validate_player}
use dance_sync_back_end.Identity.Trimming.{validate_player-IsIdentity}
use dance_sync_back_end.RoomService
use dance_sync_back_end.RoomRepository.{Rooms, key, insert_room}
use dance_sync_back_end.UseCases.{insert_under, create_room}

-- One of the codes is free.
abbrev pub any_free : Unicode → List Text → Rooms → Bool
any_free u codes rooms = any (λ code. not (has (key u code) rooms)) codes

-- The host's room is stored under its code, and the others are as they were.
pub record IsCreated (u : Unicode) (host_id : Text) (rooms after : Rooms) (room : Room)
    : Type 0 where
  pub host : room.host_id ≡ host_id
  pub was_free : lookup (key u room.code) rooms ≡ none
  pub stored : lookup (key u room.code) after ≡ some room
  pub others : (j : Text) → (key u room.code == j) ≡ false → lookup j after ≡ lookup j rooms

create-ok :
    (host : Identity) (code : Text) (now : ℕ)
    → validate_player (string host.id) (string host.display_name) ≡ ok host
    → (room : Room) × (RoomService.create host code now ≡ ok room)
      × (room.code ≡ code)
      × (room.host_id ≡ host.id)
unfolding RoomService.create
create-ok host code now h = rw h (_, refl, refl, refl)

module _ (u : Unicode) (host : Identity) (now : ℕ)
    (h : validate_player (string host.id) (string host.display_name) ≡ ok host) where
  -- What the loop promises.
  abbrev Creates : List Text → Rooms → Type 0
  Creates codes rooms =
      (room : Room) × ((insert_under u host now codes rooms).0 ≡ ok room)
      × IsCreated u host.id rooms (insert_under u host now codes rooms).1 room

  free-IsCreated :
      (rooms : Rooms) (room : Room)
      → has (key u room.code) rooms ≡ false
      → room.host_id ≡ host.id
      → IsCreated u host.id rooms (insert (key u room.code) room rooms) room
  free-IsCreated rooms room free hosted = record {
    host = hosted;
    was_free = ground arith;
    stored = ground (
      arith,
      lookup-insert (key u room.code) (key u room.code) room rooms,
      eq_refl (key u room.code),
    );
    others = λ j e. ground (arith, e, lookup-insert (key u room.code) j room rooms);
  }

  next-Creates :
      (code : Text) (codes : List Text) (rooms : Rooms) (room : Room)
      → RoomService.create host code now ≡ ok room
      → room.code ≡ code
      → room.host_id ≡ host.id
      → any_free u (code ∷ codes) rooms ≡ true
      → (any_free u codes rooms ≡ true → Creates codes rooms)
      → Creates (code ∷ codes) rooms
  unfolding insert_under insert_room
  next-Creates code codes rooms room made same hosted f again =
      elim (Bool-cases (has (key u room.code) rooms)) [
        | inl taken ↦ rw (made, taken, insert_under) (again (ground arith))
        | inr free ↦
            rw (made, free, insert_under) (room, refl, free-IsCreated rooms room free hosted)
      ]

  insert_under-Creates :
      (codes : List Text) (rooms : Rooms) → any_free u codes rooms ≡ true → Creates codes rooms
  insert_under-Creates [] rooms f = absurd (ground arith)
  insert_under-Creates (code ∷ codes) rooms f =
      let (room, made, same, hosted) = create-ok host code now h in
      next-Creates code codes rooms room made same hosted f (insert_under-Creates codes rooms)

-- When the identity is accepted and one of the codes drawn is free, a room is created for this
-- host: it is stored under a code that was free, and every other room is as it was.
pub create_room-IsCreated :
    (u : Unicode) (id name : Wire) (now : ℕ) (codes : List Text) (rooms : Rooms) (v : Identity)
    → validate_player id name ≡ ok v
    → any_free u codes rooms ≡ true
    → (room : Room) × ((create_room u id name now codes rooms).0 ≡ ok room)
      × IsCreated u v.id rooms (create_room u id name now codes rooms).1 room
unfolding create_room
create_room-IsCreated u id name now codes rooms v e f =
    rw (e, create_room)
      (insert_under-Creates u v now (validate_player-IsIdentity id name v e).2 codes rooms f)
