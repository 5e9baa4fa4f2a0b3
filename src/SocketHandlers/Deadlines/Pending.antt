-- ===== src/SocketHandlers/Deadlines/Pending.antt =====
-- What the commands of the deadline timers of socketHandlers.ts decide on a room that has the deadline
-- pending.
use dance_sync_back_end.Base.{
  length, is_some, ◌⊎◌, get_or, sym, ℕ, ◌+◌, ◌≤◌, ◌≡◌, refl, ap, ◌∙◌, true, false, ◌&&◌, Option,
  none, some, inl, inr, Bool-cases, Option-cases, nat_eq, ltb, Text, eq_refl, lookup, insert, arith,
}
use dance_sync_back_end.Errors.{Result, ok}
use dance_sync_back_end.Model.{
  Room, Battle, SongSelection, is_waiting, is_battling, is_typing, song_end, timeout, finished,
}
use dance_sync_back_end.Identity.{Unicode}
use dance_sync_back_end.SongSelectionService.Fallback.{
  InBounds, present_of, IsFair, chosen_by, assign_fallback_chooser-IsFair,
}
use dance_sync_back_end.SongSelectionService.{assign_fallback_chooser}
use dance_sync_back_end.MatchRecordService.Records.{closed_room, closed_battle}
use dance_sync_back_end.SongSelectionService.Attempts.{expire, some_room}
use dance_sync_back_end.RoomService.Battles.{finish_at_deadline}
use dance_sync_back_end.RoomRepository.{Rooms, Change, write, key, apply_change}
use dance_sync_back_end.UseCases.{Capturing, update_capturing, capture}
use dance_sync_back_end.UseCases.Commands.{deadline_change, expire_change}
use dance_sync_back_end.RoomTimers.{RoomTimerKind, song_challenge, song_choose, battle_end}
use dance_sync_back_end.SocketHandlers.Arming.{Deadline, expires_challenge, finishes_battle}
use dance_sync_back_end.SocketHandlers.Arming.Follows.{wanted}

-- The challenge of the room was cancelled, since none of its participants is left, or its choice
-- belongs to one of them.
abbrev pub IsDecided : Room → Room → ℕ → Type 0
IsDecided room next now =
    (selection : SongSelection) × (room.song_selection ≡ some selection)
    × (((length (present_of room selection) ≡ 0) × (next.song_selection ≡ none))
        ⊎ ((id : Text) × IsFair room selection id
            × (next.song_selection ≡ some (chosen_by selection id timeout now))))

-- The battle of the room ended with its song.
abbrev pub IsOver : Room → Room → ℕ → Type 0
IsOver room next now =
    (battle : Battle) × (over : Battle) × (room.battle ≡ some battle)
    × (next.status ≡ finished)
    × (next.battle ≡ some over)
    × (over.id ≡ battle.id)
    × (over.finished_at ≡ some now)
    × (over.end_reason ≡ some song_end)
    × (is_some over.result ≡ true)

-- What the timer of the kind is there for; the one of the choice is not among them.
abbrev pub Outcome : RoomTimerKind → Room → Room → ℕ → Type 0
Outcome song_challenge room next now = IsDecided room next now
Outcome song_choose room next now = ⊥
Outcome battle_end room next now = IsOver room next now

-- A decided change that has the outcome and leaves nothing of the kind pending.
abbrev pub Settles {ℓ} : {B : Type ℓ} → RoomTimerKind → Room → ℕ → Result (Change × B) → Type ℓ
Settles {B} kind room now r =
    (next : Room) × (b : B) × (r ≡ ok (write next, b))
    × (next.version ≡ room.version)
    × (wanted next kind ≡ none)
    × Outcome kind room next now

nat_eq_refl : (n : ℕ) → nat_eq n n ≡ true
nat_eq_refl n = ground arith

module _ (u : Unicode) where
  pub stored {ℓ} :
      {B : Type ℓ} (code : Text) (room next : Room) (b : B) (mutate : Capturing B) (rooms : Rooms)
      → lookup (key u code) rooms ≡ some room
      → mutate room ≡ ok (write next, b)
      → next.version ≡ room.version
      → update_capturing u code mutate rooms ≡ (
        ok (some (record next { version = room.version + 1 }), b),
        insert (key u code) (record next { version = room.version + 1 }) rooms,
      )
  unfolding update_capturing apply_change
  stored code room next b mutate rooms f e v =
      rw (f, update_capturing) (rw (e, capture) (rw (v, nat_eq_refl room.version) refl))

-- The end of the battle.
pub deadline_change-Settles :
    (room : Room) (battle : Battle) (now : ℕ)
    → room.battle ≡ some battle
    → is_battling room.status ≡ true
    → battle.ends_at ≤ now
    → Settles battle_end room now (deadline_change battle.id now room)
unfolding finish_at_deadline
deadline_change-Settles room battle now e b late =
    let on_time : ltb now battle.ends_at ≡ false = ground arith in
    (
      closed_room room battle song_end now,
      true,
      rw (e, b, eq_refl battle.id, on_time) refl,
      refl,
      refl,
      (battle, closed_battle battle song_end now, e, refl, refl, refl, refl, refl, refl),
    )

-- The challenge.
expired_to :
    (room : Room) (selection : SongSelection) (random : ℕ → ℕ) (now : ℕ)
    → room.song_selection ≡ some selection
    → is_typing selection.phase ≡ true
    → expire room selection.challenge.id random now
      ≡ some_room (assign_fallback_chooser room selection timeout random now)
unfolding expire
expired_to room selection random now e t = rw (e, t, eq_refl selection.challenge.id) refl

pub expire_change-Settles :
    (room : Room) (selection : SongSelection) (random : ℕ → ℕ) (now : ℕ)
    → InBounds random
    → room.song_selection ≡ some selection
    → is_typing selection.phase ≡ true
    → Settles song_challenge room now (expire_change selection.challenge.id random now room)
expire_change-Settles room selection random now h e t =
    elim (assign_fallback_chooser-IsFair room selection timeout random now h) [
      | inl (empty, gone) ↦ (
        record room { song_selection = none },
        true,
        rw (expired_to room selection random now e t, gone) refl,
        refl,
        refl,
        (selection, e, inl (empty, refl)),
      )
      | inr (id, fair, chosen) ↦ (
        record room { song_selection = some (chosen_by selection id timeout now) },
        true,
        rw (expired_to room selection random now e t, chosen) refl,
        refl,
        ground arith,
        (selection, e, inr (id, fair, refl)),
      )
    ]

abbrev armed : ℕ → Deadline → Option (ℕ × Deadline)
armed at task = some (at, task)

armed-injective :
    (at at' : ℕ) (task task' : Deadline)
    → armed at task ≡ armed at' task'
    → (at ≡ at') × (task ≡ task')
armed-injective at at' task task' e = (
  ap (λ o. (get_or {A = ℕ × Deadline} o (at, task)).0) e,
  ap (λ o. (get_or {A = ℕ × Deadline} o (at, task)).1) e,
)

pub battle_pending :
    (room : Room) (at : ℕ) (task : Deadline)
    → wanted room battle_end ≡ some (at, task)
    → (battle : Battle) × (room.battle ≡ some battle)
      × (is_battling room.status ≡ true)
      × (battle.ends_at ≡ at)
      × (finishes_battle room.code battle.id ≡ task)
battle_pending room at task w = elim (Option-cases room.battle) [
  | inl e ↦ absurd (ground (arith, e, w))
  | inr (battle, e) ↦ elim (Bool-cases (is_battling room.status)) [
    | inl b ↦
        let p : wanted room battle_end
            ≡ some (battle.ends_at, finishes_battle room.code battle.id) =
          rw (e, b) refl in
        let (q, r) = armed-injective _ _ _ _ (sym p ∙ w) in (battle, e, b, q, r)
    | inr b ↦ absurd (ground (arith, e, b, w))
  ]
]

pub challenge_pending :
    (room : Room) (at : ℕ) (task : Deadline)
    → wanted room song_challenge ≡ some (at, task)
    → (selection : SongSelection) × (room.song_selection ≡ some selection)
      × (is_typing selection.phase ≡ true)
      × (expires_challenge room.code selection.challenge.id ≡ task)
challenge_pending room at task w = elim (Option-cases room.song_selection) [
  | inl e ↦ absurd (ground (arith, e, w))
  | inr (selection, e) ↦ elim (Bool-cases (is_waiting room.status && is_typing selection.phase)) [
    | inl b ↦
        let p : wanted room song_challenge
            ≡ some (
              selection.challenge.expires_at,
              expires_challenge room.code selection.challenge.id,
            ) =
          rw (e, b) refl in
        (selection, e, ground (arith, b), (armed-injective _ _ _ _ (sym p ∙ w)).1)
    | inr b ↦ absurd (ground (arith, e, b, w))
  ]
]
