-- ===== src/SocketHandlers/Deadlines/Settled.antt =====
-- The timer that a state of a room has armed in socketHandlers.ts settles, once it is due, what it was
-- armed for.
use dance_sync_back_end.Base.{
  sym, subst, ℕ, ◌+◌, ◌≤◌, ◌≡◌, ◌≢◌, refl, ap, ◌∙◌, Bool, true, false, Option, none, some, eq_refl,
  lookup, insert, lookup-insert,
}
use dance_sync_back_end.Errors.{Result, ok, err}
use dance_sync_back_end.Model.{Room, Battle, SongSelection}
use dance_sync_back_end.Identity.{Unicode}
use dance_sync_back_end.SongSelectionService.Fallback.{InBounds}
use dance_sync_back_end.RoomRepository.{Rooms, key}
use dance_sync_back_end.UseCases.Commands.{
  finish_battle_at_deadline, expire_song_challenge, deadline_change, expire_change,
}
use dance_sync_back_end.RoomTimers.{RoomTimerKind, song_challenge, song_choose, battle_end}
use dance_sync_back_end.SocketHandlers.Arming.{Deadline, expires_challenge, finishes_battle}
use dance_sync_back_end.SocketHandlers.Arming.Follows.{wanted}
use dance_sync_back_end.SocketHandlers.Hub.{Hub, Moment, publish_room, announce_battle_finished}
use dance_sync_back_end.SocketHandlers.Deadlines.{
  run_deadline, finished_at_deadline, challenge_expired,
}
use dance_sync_back_end.SocketHandlers.Deadlines.Pending.{
  Outcome, Settles, stored, deadline_change-Settles, expire_change-Settles, battle_pending,
  challenge_pending,
}

module _ (u : Unicode) (m : Moment) where
  -- A room of the store under its key, whose deadline of the kind has passed, is after its timer
  -- stored with the next version, the outcome and nothing pending of that kind.
  abbrev pub IsSettled : RoomTimerKind → Room → Rooms → Type 0
  IsSettled kind room after =
      (next : Room) × (lookup (key u room.code) after ≡ some next)
      × (next.version ≡ room.version + 1)
      × (wanted next kind ≡ none)
      × Outcome kind room next m.now

  after_write :
      (kind : RoomTimerKind) (room next : Room) (rooms after : Rooms)
      → next.version ≡ room.version
      → wanted (record next { version = room.version + 1 }) kind ≡ none
      → Outcome kind room (record next { version = room.version + 1 }) m.now
      → after ≡ insert (key u room.code) (record next { version = room.version + 1 }) rooms
      → IsSettled kind room after
  after_write kind room next rooms after v w o e = (
    record next { version = room.version + 1 },
    rw
        (
          e,
          lookup-insert (key u room.code) (key u room.code)
              (record next { version = room.version + 1 }) rooms,
          eq_refl (key u room.code),
        )
        refl,
    refl,
    w,
    o,
  )

  versioned :
      (kind : RoomTimerKind) (next : Room) (version : ℕ)
      → wanted next kind ≡ none
      → wanted (record next { version = version }) kind ≡ none
  versioned song_challenge next version w = w
  versioned song_choose next version w = w
  versioned battle_end next version w = w

  versioned_outcome :
      (kind : RoomTimerKind) (room next : Room) (version : ℕ)
      → Outcome kind room next m.now
      → Outcome kind room (record next { version = version }) m.now
  versioned_outcome song_challenge room next version o = o
  versioned_outcome song_choose room next version o = o
  versioned_outcome battle_end room next version o = o

  finished_rooms :
      (r : Result (Option Room × Bool)) (hub : Hub)
      → (finished_at_deadline u m r hub).rooms ≡ hub.rooms
  unfolding finished_at_deadline announce_battle_finished publish_room
  finished_rooms (err e) hub = refl
  finished_rooms (ok (none, finished)) hub = refl
  finished_rooms (ok (some room, true)) hub = refl
  finished_rooms (ok (some room, false)) hub = refl

  battle-IsSettled :
      (room : Room) (battle : Battle) (hub : Hub)
      → lookup (key u room.code) hub.rooms ≡ some room
      → Settles battle_end room m.now (deadline_change battle.id m.now room)
      → IsSettled battle_end room (run_deadline u m (finishes_battle room.code battle.id) hub).rooms
  unfolding run_deadline finish_battle_at_deadline
  battle-IsSettled room battle hub f (next, b, e, v, w, o) =
      after_write battle_end room next hub.rooms _ v
        (versioned battle_end next (room.version + 1) w)
        (versioned_outcome battle_end room next (room.version + 1) o)
        (finished_rooms _ _
          ∙ ap (λ r. r.1)
              (stored u room.code room next b (deadline_change battle.id m.now) hub.rooms f e v))

  challenge_rooms :
      (r : Result (Option Room)) (hub : Hub) → (challenge_expired u m r hub).rooms ≡ hub.rooms
  unfolding challenge_expired publish_room
  challenge_rooms (err e) hub = refl
  challenge_rooms (ok none) hub = refl
  challenge_rooms (ok (some room)) hub = refl

  challenge-IsSettled :
      (room : Room) (selection : SongSelection) (hub : Hub)
      → lookup (key u room.code) hub.rooms ≡ some room
      → Settles song_challenge room m.now (expire_change selection.challenge.id m.random m.now room)
      → IsSettled song_challenge room
          (run_deadline u m (expires_challenge room.code selection.challenge.id) hub).rooms
  unfolding run_deadline expire_song_challenge
  challenge-IsSettled room selection hub f (next, b, e, v, w, o) =
      after_write song_challenge room next hub.rooms _ v
        (versioned song_challenge next (room.version + 1) w)
        (versioned_outcome song_challenge room next (room.version + 1) o)
        (challenge_rooms _ _
          ∙ ap (λ r. r.1)
              (stored u room.code room next b (expire_change selection.challenge.id m.random m.now)
                hub.rooms f e v))

  -- When the random index is in bounds and the timer that a stored room has armed for its challenge
  -- or its battle runs, at its deadline or later, the room is stored with its next version and has
  -- nothing of that kind pending any more: a challenge is cancelled, since none of its participants
  -- is in the room, or its choice is handed, for the timeout and with a fresh deadline, to a
  -- participant in the room who has not misspelled the phrase, or to any in the room if all of them
  -- have; and a battle is over, with the room finished, the end of the song as its reason, this
  -- moment as its end and a result.
  pub run_deadline-IsSettled :
      (kind : RoomTimerKind) (room : Room) (at : ℕ) (task : Deadline) (hub : Hub)
      → kind ≢ song_choose
      → InBounds m.random
      → lookup (key u room.code) hub.rooms ≡ some room
      → wanted room kind ≡ some (at, task)
      → at ≤ m.now
      → IsSettled kind room (run_deadline u m task hub).rooms
  run_deadline-IsSettled battle_end room at task hub n h f w late =
      let (battle, e, b, q, p) = battle_pending room at task w in
      let due : battle.ends_at ≤ m.now = subst (λ x. x ≤ m.now) (sym q) late in
      subst (λ x. IsSettled battle_end room (run_deadline u m x hub).rooms) p
        (battle-IsSettled room battle hub f (deadline_change-Settles room battle m.now e b due))
  run_deadline-IsSettled song_challenge room at task hub n h f w late =
      let (selection, e, t, p) = challenge_pending room at task w in
      subst (λ x. IsSettled song_challenge room (run_deadline u m x hub).rooms) p
        (challenge-IsSettled room selection hub f
          (expire_change-Settles room selection m.random m.now h e t))
  run_deadline-IsSettled song_choose room at task hub n h f w late = absurd (n refl)
