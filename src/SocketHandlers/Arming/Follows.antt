-- ===== src/SocketHandlers/Arming/Follows.antt =====
-- What the timers of a room are after armRoomTimers of socketHandlers.ts took one state of a room.
use dance_sync_back_end.Base.{
  ℕ, ◌≤◌, ◌≡◌, refl, ◌∙◌, inl, inr, Bool, true, false, ◌&&◌, Option, none, some, Bool-cases, Text,
  lookup, lookup-insert, if◌then◌else◌, arith,
}
use dance_sync_back_end.Model.{Room}
use dance_sync_back_end.Identity.{Unicode}
use dance_sync_back_end.Timeouts.{Timeouts, due_at}
use dance_sync_back_end.Timeouts.Synced.{IsSynced}
use dance_sync_back_end.RoomTimers.{RoomTimerKind, song_challenge, song_choose, battle_end}
use dance_sync_back_end.RoomTimers.Keys.{IsPlain, same_room, same_kind}
use dance_sync_back_end.RoomTimers.Refinement.{
  sets, clears, view, call, call-view, call-IsSynced, same_deadline,
}
use dance_sync_back_end.SocketHandlers.Arming.{
  Deadline, Arming, challenge_deadline, choice_deadline, battle_deadline, set_or_clear, is_older,
  arm_room_timers,
}

abbrev pub wanted : Room → RoomTimerKind → Option (ℕ × Deadline)
wanted room song_challenge = challenge_deadline room
wanted room song_choose = choice_deadline room
wanted room battle_end = battle_deadline room

-- The timer of a kind does what the room wants, not before its deadline; or there is none.
abbrev pub IsFor : Option (ℕ × Deadline) → Option (ℕ × Deadline) → Type 0
IsFor none timer = timer ≡ none
IsFor (some (at, task)) timer = (due : ℕ) × (timer ≡ some (due, task)) × (at ≤ due)

abbrev pub due_for : Option (ℕ × Deadline) → ℕ → Option (ℕ × Deadline)
due_for none now = none
due_for (some (at, task)) now = some (due_at at now, task)

due_for-IsFor : (w : Option (ℕ × Deadline)) (now : ℕ) → IsFor w (due_for w now)
due_for-IsFor none now = refl
due_for-IsFor (some (at, task)) now = (due_at at now, refl, omega arith)

-- Each of the three calls decides one kind.
one_kind :
    (room : Room) (now : ℕ) (j : RoomTimerKind) (same : Bool) (v0 v1 v2 v3 : Option (ℕ × Deadline))
    → v1
      ≡ (if same && same_kind song_challenge j then due_for (challenge_deadline room) now else v0)
    → v2 ≡ (if same && same_kind song_choose j then due_for (choice_deadline room) now else v1)
    → v3 ≡ (if same && same_kind battle_end j then due_for (battle_deadline room) now else v2)
    → v3 ≡ (if same then due_for (wanted room j) now else v0)
one_kind room now song_challenge true v0 v1 v2 v3 e f g = g ∙ f ∙ e
one_kind room now song_choose true v0 v1 v2 v3 e f g = g ∙ f
one_kind room now battle_end true v0 v1 v2 v3 e f g = g
one_kind room now j false v0 v1 v2 v3 e f g = g ∙ f ∙ e

module _ (u : Unicode) where
  set_or_clear-view :
      (code : Text) (kind : RoomTimerKind) (w : Option (ℕ × Deadline)) (now : ℕ)
      (t : Timeouts Deadline) (b : Text) (j : RoomTimerKind)
      → IsSynced t
      → IsPlain u code
      → IsPlain u b
      → IsSynced (set_or_clear u code kind w now t)
        × (view u (set_or_clear u code kind w now t) b j
            ≡ (if same_deadline u code kind b j then due_for w now else view u t b j))
  unfolding set_or_clear call
  set_or_clear-view code kind none now t b j s p q =
      (call-IsSynced u (clears code kind) t s, call-view u (clears code kind) t b j s p q)
  set_or_clear-view code kind (some (at, task)) now t b j s p q = (
    call-IsSynced u (sets code kind at task now) t s,
    call-view u (sets code kind at task now) t b j s p q,
  )

  -- The timers of room `b` are those of its state `room`, which was the last that was armed.
  pub record Follows (b : Text) (room : Room) (a : Arming) : Type 0 where
    pub same : same_room u room.code b ≡ true
    pub armed : lookup (u.to_upper_case b) a.armed_versions ≡ some room.version
    pub challenge : IsFor (challenge_deadline room) (view u a.room_timers b song_challenge)
    pub choice : IsFor (choice_deadline room) (view u a.room_timers b song_choose)
    pub battle : IsFor (battle_deadline room) (view u a.room_timers b battle_end)

  -- The three timers after a state was armed.
  abbrev armed_timers : Room → ℕ → Timeouts Deadline → Timeouts Deadline
  armed_timers room now t = set_or_clear u room.code battle_end (battle_deadline room) now (
      set_or_clear u room.code song_choose (choice_deadline room) now
        (set_or_clear u room.code song_challenge (challenge_deadline room) now t))

  armed_timers-view :
      (room : Room) (now : ℕ) (t : Timeouts Deadline) (b : Text) (j : RoomTimerKind)
      → IsSynced t
      → IsPlain u room.code
      → IsPlain u b
      → IsSynced (armed_timers room now t)
        × (view u (armed_timers room now t) b j
            ≡ (if same_room u room.code b then due_for (wanted room j) now else view u t b j))
  armed_timers-view room now t b j s p q =
      let (s1, e1) =
        set_or_clear-view room.code song_challenge (challenge_deadline room) now t b j s p q in
      let t1 = set_or_clear u room.code song_challenge (challenge_deadline room) now t in
      let (s2, e2) =
        set_or_clear-view room.code song_choose (choice_deadline room) now t1 b j s1 p q in
      let t2 = set_or_clear u room.code song_choose (choice_deadline room) now t1 in
      let (s3, e3) =
        set_or_clear-view room.code battle_end (battle_deadline room) now t2 b j s2 p q in
      (s3, one_kind room now j (same_room u room.code b) _ _ _ _ e1 e2 e3)

  -- A state that is not older than what is armed takes over its own room, and leaves the others.
  pub newer-Follows :
      (room : Room) (now : ℕ) (b : Text) (a : Arming)
      → IsSynced a.room_timers
      → IsPlain u room.code
      → IsPlain u b
      → is_older room.version (lookup (u.to_upper_case room.code) a.armed_versions) ≡ false
      → same_room u room.code b ≡ true
      → Follows b room (arm_room_timers u room now a)
  unfolding arm_room_timers
  newer-Follows room now b a s p q new same =
      let view_of = λ (j : RoomTimerKind). (armed_timers-view room now a.room_timers b j s p q).1 in
      rw new (record {
        same = same;
        armed =
            rw
              (
                lookup-insert (u.to_upper_case room.code) (u.to_upper_case b) room.version
                    a.armed_versions,
                same,
              )
              refl;
        challenge = rw (view_of song_challenge, same) (due_for-IsFor (challenge_deadline room) now);
        choice = rw (view_of song_choose, same) (due_for-IsFor (choice_deadline room) now);
        battle = rw (view_of battle_end, same) (due_for-IsFor (battle_deadline room) now);
      })

  pub other-Follows :
      (room r : Room) (now : ℕ) (b : Text) (a : Arming)
      → IsSynced a.room_timers
      → IsPlain u room.code
      → IsPlain u b
      → same_room u room.code b ≡ false
      → Follows b r a
      → Follows b r (arm_room_timers u room now a)
  unfolding arm_room_timers
  other-Follows room r now b a s p q other f =
      elim (Bool-cases
        (is_older room.version (lookup (u.to_upper_case room.code) a.armed_versions))) [
          | inl old ↦ rw old f
          | inr new ↦
              let view_of =
                λ (j : RoomTimerKind). (armed_timers-view room now a.room_timers b j s p q).1 in
              rw new (record {
                same = f.same;
                armed =
                    rw
                      (
                        lookup-insert (u.to_upper_case room.code) (u.to_upper_case b) room.version
                            a.armed_versions,
                        other,
                      )
                      f.armed;
                challenge = rw (view_of song_challenge, other) f.challenge;
                choice = rw (view_of song_choose, other) f.choice;
                battle = rw (view_of battle_end, other) f.battle;
              })
        ]

  pub arm-IsSynced :
      (room : Room) (now : ℕ) (a : Arming)
      → IsSynced a.room_timers
      → IsPlain u room.code
      → IsSynced (arm_room_timers u room now a).room_timers
  unfolding arm_room_timers
  arm-IsSynced room now a s p =
      elim (Bool-cases
        (is_older room.version (lookup (u.to_upper_case room.code) a.armed_versions))) [
          | inl old ↦ rw old s
          | inr new ↦ rw new (armed_timers-view room now a.room_timers room.code battle_end s p p).0
        ]
