-- ===== src/SocketHandlers/Arming/Newest.antt =====
-- The timers that armRoomTimers of socketHandlers.ts leaves, in whatever order states are published.
use dance_sync_back_end.Base.{
  ℕ, ◌≤◌, ◌≡◌, refl, ◌∙◌, ◌⊎◌, inl, inr, true, false, none, some, Bool-cases, List, [], ◌∷◌, Text,
  eq→path, lookup, lookup-insert, All, any, arith,
}
use dance_sync_back_end.Model.{Room}
use dance_sync_back_end.Identity.{Unicode}
use dance_sync_back_end.Timeouts.Synced.{IsSynced}
use dance_sync_back_end.RoomTimers.Keys.{IsPlain, same_room}
use dance_sync_back_end.SocketHandlers.Arming.{Arming, is_older, arm_room_timers, arm_all}
use dance_sync_back_end.SocketHandlers.Arming.Follows.{
  Follows, newer-Follows, other-Follows, arm-IsSynced,
}

module _ (u : Unicode) where
  -- After one more state, the timers follow the newer of the two.
  arm-newer :
      (room r : Room) (now : ℕ) (b : Text) (a : Arming)
      → IsSynced a.room_timers
      → IsPlain u room.code
      → IsPlain u b
      → Follows u b r a
      → (next : Room) × ((next ≡ r) ⊎ (next ≡ room))
        × Follows u b next (arm_room_timers u room now a)
        × (r.version ≤ next.version)
        × (same_room u room.code b ≡ true → room.version ≤ next.version)
  unfolding arm_room_timers
  arm-newer room r now b a s p q f = elim (Bool-cases (same_room u room.code b)) [
    | inr other ↦ (
      r,
      inl refl,
      other-Follows u room r now b a s p q other f,
      omega arith,
      λ same. absurd (ground (arith, other, same)),
    )
    | inl same ↦
        let e : u.to_upper_case room.code ≡ u.to_upper_case b = eq→path _ _ same in
        let known : lookup (u.to_upper_case room.code) a.armed_versions ≡ some r.version =
          rw e f.armed in
        elim (Bool-cases
          (is_older room.version (lookup (u.to_upper_case room.code) a.armed_versions))) [
            | inl old ↦ (r, inl refl, rw old f, omega arith, λ _. ground (arith, old, known))
            | inr new ↦ (
              room,
              inr refl,
              newer-Follows u room now b a s p q new same,
              ground (arith, new, known),
              λ _. omega arith,
            )
          ]
  ]

  -- A published state of the list.
  abbrev pub Among : Room → List (Room × ℕ) → Type 0
  Among room [] = ⊥
  Among room ((r, now) ∷ published) = (room ≡ r) ⊎ Among room published

  -- No published state of the room is newer.
  abbrev pub IsNewest : Text → Room → List (Room × ℕ) → Type 0
  IsNewest b room = All (λ e. same_room u e.0.code b ≡ true → e.0.version ≤ room.version)

  abbrev pub AllPlain : List (Room × ℕ) → Type 0
  AllPlain = All (λ e. IsPlain u e.0.code)

  chosen :
      {r room m n : Room} (now : ℕ) (published : List (Room × ℕ))
      → (m ≡ r) ⊎ (m ≡ room)
      → (n ≡ m) ⊎ Among n published
      → (n ≡ r) ⊎ Among n ((room, now) ∷ published)
  chosen now published (inl e) (inl d) = inl (d ∙ e)
  chosen now published (inr e) (inl d) = inr (inl (d ∙ e))
  chosen now published _ (inr d) = inr (inr d)

  -- From the state that the timers follow on.
  follow_all :
      (published : List (Room × ℕ)) (r : Room) (b : Text) (a : Arming)
      → IsSynced a.room_timers
      → AllPlain published
      → IsPlain u b
      → Follows u b r a
      → (next : Room) × ((next ≡ r) ⊎ Among next published)
        × Follows u b next (arm_all u published a)
        × (r.version ≤ next.version)
        × IsNewest b next published
  unfolding arm_all
  follow_all [] r b a s p q f = (r, inl refl, f, omega arith, tt)
  follow_all ((room, now) ∷ published) r b a s p q f =
      let (m, from, g, le, newer) = arm-newer room r now b a s p.0 q f in
      let (n, source, h, more, newest) =
        follow_all published m b (arm_room_timers u room now a) (arm-IsSynced u room now a s p.0)
          p.1 q g in
      (
        n,
        chosen now published from source,
        h,
        omega (arith, le, more),
        (λ same. omega (arith, newer same, more), newest),
      )

  other-unarmed :
      (room : Room) (now : ℕ) (b : Text) (a : Arming)
      → same_room u room.code b ≡ false
      → lookup (u.to_upper_case b) (arm_room_timers u room now a).armed_versions
        ≡ lookup (u.to_upper_case b) a.armed_versions
  unfolding arm_room_timers
  other-unarmed room now b a other = ground (
    arith,
    lookup-insert (u.to_upper_case room.code) (u.to_upper_case b) room.version a.armed_versions,
  )

  -- When no code has a bar and the Map of handles knows the timers that Node holds, then in
  -- whatever order states of rooms are published, the timers of a room that was published, and had
  -- no state armed before, follow at the end the newest of its published states: each kind has the
  -- deadline that this state has pending, to be settled not before it is due, and none if it has
  -- none pending.
  pub arm_all-Follows :
      (published : List (Room × ℕ)) (b : Text) (a : Arming)
      → IsSynced a.room_timers
      → AllPlain published
      → IsPlain u b
      → lookup (u.to_upper_case b) a.armed_versions ≡ none
      → any (λ e. same_room u e.0.code b) published ≡ true
      → (room : Room) × Among room published
        × Follows u b room (arm_all u published a)
        × IsNewest b room published
  unfolding arm_all
  arm_all-Follows [] b a s p q e h = absurd (ground arith)
  arm_all-Follows ((room, now) ∷ published) b a s p q e h =
      elim (Bool-cases (same_room u room.code b)) [
        | inl same ↦
            let next = arm_room_timers u room now a in
            let new : is_older room.version (lookup (u.to_upper_case room.code) a.armed_versions)
                ≡ false =
              rw (eq→path (u.to_upper_case room.code) (u.to_upper_case b) same, e) refl in
            let (n, source, f, more, newest) =
              follow_all published room b next (arm-IsSynced u room now a s p.0) p.1 q
                (newer-Follows u room now b a s p.0 q new same) in
            (n, source, f, ((λ _. more), newest))
        | inr other ↦
            let next = arm_room_timers u room now a in
            let (n, source, f, newest) =
              arm_all-Follows published b next (arm-IsSynced u room now a s p.0) p.1 q
                (other-unarmed room now b a other ∙ e) (ground (arith, h, other)) in
            (n, inr source, f, ((λ same. absurd (ground (arith, same, other))), newest))
      ]
