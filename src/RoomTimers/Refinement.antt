-- ===== src/RoomTimers/Refinement.antt =====
-- What RoomTimers.ts promises: for each room and kind one deadline at most, whatever the Map of handles
-- and the timers of Node look like.
use dance_sync_back_end.Base.{
  ℕ, ◌≡◌, refl, ◌∙◌, Bool, ◌&&◌, Option, none, some, List, [], ◌∷◌, All, Text, if◌then◌else◌, arith,
}
use dance_sync_back_end.Identity.{Unicode}
use dance_sync_back_end.Timeouts.{Timeout, Timeouts, due_at, timer_at}
use dance_sync_back_end.Timeouts.Synced.{
  IsSynced, cancel-IsSynced, renew-IsSynced, timer_at-cancel, timer_at-renew,
}
use dance_sync_back_end.RoomTimers.{
  RoomTimerKind, close, room_prefix, timer_key, set, clear, clear_room,
}
use dance_sync_back_end.RoomTimers.Keys.{
  IsPlain, same_room, same_kind, timer_key-eq, starts_with-timer_key,
}
use dance_sync_back_end.RoomTimers.Clearing.{
  fire_at, fire_at-cancel, clear_matching-timers, close-IsSynced, timer_at-close,
}

-- The calls of the class; `fires` is Node running the timer of a room and kind.
pub data TimerCall {ℓ} (A : Type ℓ) : Type ℓ where
  sets : Text → RoomTimerKind → ℕ → A → ℕ → TimerCall A
  clears fires : Text → RoomTimerKind → TimerCall A
  clears_room : Text → TimerCall A
  closes : TimerCall A

-- What clients see: for a room and a kind, when its timer is due and what it will do.
abbrev pub Deadlines {ℓ} : Type ℓ → Type ℓ
Deadlines A = Text → RoomTimerKind → Option (ℕ × A)

abbrev pub deadline_of {ℓ} : {A : Type ℓ} → Option (Timeout A) → Option (ℕ × A)
deadline_of none = none
deadline_of (some p) = some (p.due, p.task)

module _ (u : Unicode) where
  abbrev pub same_deadline : Text → RoomTimerKind → Text → RoomTimerKind → Bool
  same_deadline a k b j = same_room u a b && same_kind k j

  module _ {ℓ} {A : Type ℓ} where
    -- The class, call by call.
    unfoldable pub call : TimerCall A → Timeouts A → Timeouts A
    unfolding fire_at
    call (sets code kind at task now) t = set u code kind at task now t
    call (clears code kind) t = clear u code kind t
    call (fires code kind) t = (fire_at (timer_key u code kind) t).1
    call (clears_room code) t = clear_room u code t
    call closes t = close t

    pub call_all : List (TimerCall A) → Timeouts A → Timeouts A
    call_all [] t = t
    call_all (c ∷ cs) t = call_all cs (call c t)

    -- The specification: a function from rooms and kinds, changed at one of them, at one room, or
    -- everywhere.
    abbrev pub meant : TimerCall A → Deadlines A → Deadlines A
    meant (sets code kind at task now) m b j =
        if same_deadline code kind b j then some (due_at at now, task) else m b j
    meant (clears code kind) m b j = if same_deadline code kind b j then none else m b j
    meant (fires code kind) m b j = if same_deadline code kind b j then none else m b j
    meant (clears_room code) m b j = if same_room u code b then none else m b j
    meant closes m b j = none

    abbrev pub meant_all : List (TimerCall A) → Deadlines A → Deadlines A
    meant_all [] m = m
    meant_all (c ∷ cs) m = meant_all cs (meant c m)

    abbrev pub view : Timeouts A → Deadlines A
    view t code kind = deadline_of (timer_at t (timer_key u code kind))

    -- The code that a call is about, if any, has no bar.
    abbrev pub IsPlainCall : TimerCall A → Type 0
    IsPlainCall (sets code kind at task now) = IsPlain u code
    IsPlainCall (clears code kind) = IsPlain u code
    IsPlainCall (fires code kind) = IsPlain u code
    IsPlainCall (clears_room code) = IsPlain u code
    IsPlainCall closes = Unit {0}

    pub call-IsSynced : (c : TimerCall A) (t : Timeouts A) → IsSynced t → IsSynced (call c t)
    unfolding call set clear clear_room
    call-IsSynced (sets code kind at task now) t s =
        renew-IsSynced (timer_key u code kind) (due_at at now) task t s
    call-IsSynced (clears code kind) t s = cancel-IsSynced (timer_key u code kind) t s
    call-IsSynced (fires code kind) t s =
        rw (fire_at-cancel (timer_key u code kind) t s)
          (cancel-IsSynced (timer_key u code kind) t s)
    call-IsSynced (clears_room code) t s = (clear_matching-timers (room_prefix u code) t [] s).0
    call-IsSynced closes t s = close-IsSynced t s

    pub call-view :
        (c : TimerCall A) (t : Timeouts A) (b : Text) (j : RoomTimerKind)
        → IsSynced t
        → IsPlainCall c
        → IsPlain u b
        → view (call c t) b j ≡ meant c (view t) b j
    unfolding call set clear clear_room
    call-view (sets code kind at task now) t b j s p q = ground (
      arith,
      timer_at-renew (timer_key u code kind) (timer_key u b j) (due_at at now) task t s,
      timer_key-eq u code b kind j p q,
    )
    call-view (clears code kind) t b j s p q = ground (
      arith,
      timer_at-cancel (timer_key u code kind) (timer_key u b j) t s,
      timer_key-eq u code b kind j p q,
    )
    call-view (fires code kind) t b j s p q = rw (fire_at-cancel (timer_key u code kind) t s) (
        ground (
          arith,
          timer_at-cancel (timer_key u code kind) (timer_key u b j) t s,
          timer_key-eq u code b kind j p q,
        ))
    call-view (clears_room code) t b j s p q = ground (
      arith,
      (clear_matching-timers (room_prefix u code) t (timer_key u b j) s).1,
      starts_with-timer_key u code b j p q,
    )
    call-view closes t b j s p q = rw (timer_at-close t (timer_key u b j)) refl

    meant-agree :
        (c : TimerCall A) (m n : Deadlines A) (b : Text) (j : RoomTimerKind)
        → m b j ≡ n b j
        → meant c m b j ≡ meant c n b j
    meant-agree (sets code kind at task now) m n b j e = rw e refl
    meant-agree (clears code kind) m n b j e = rw e refl
    meant-agree (fires code kind) m n b j e = rw e refl
    meant-agree (clears_room code) m n b j e = rw e refl
    meant-agree closes m n b j e = refl

    -- Specifications that agree on the codes without a bar go on to agree there.
    meant_all-agree :
        (cs : List (TimerCall A)) (m n : Deadlines A) (b : Text) (j : RoomTimerKind)
        → ((c : Text) (k : RoomTimerKind) → IsPlain u c → m c k ≡ n c k)
        → IsPlain u b
        → meant_all cs m b j ≡ meant_all cs n b j
    meant_all-agree [] m n b j h q = h b j q
    meant_all-agree (c ∷ cs) m n b j h q =
        meant_all-agree cs (meant c m) (meant c n) b j (λ a k p. meant-agree c m n a k (h a k p)) q

    -- When the Map knows the timers that Node holds, then whatever calls are made and whatever
    -- timers run, the class does for codes without a bar what a function from rooms and kinds does
    -- that is changed at one of them, at one room, or everywhere; and each key has one timer at
    -- most, with nothing pending beside those that the Map knows.
    pub call_all-meant :
        (cs : List (TimerCall A)) (t : Timeouts A) (b : Text) (j : RoomTimerKind)
        → IsSynced t
        → All IsPlainCall cs
        → IsPlain u b
        → IsSynced (call_all cs t) × (view (call_all cs t) b j ≡ meant_all cs (view t) b j)
    unfolding call_all
    call_all-meant [] t b j s p q = (s, refl)
    call_all-meant (c ∷ cs) t b j s p q =
        let (s', e) = call_all-meant cs (call c t) b j (call-IsSynced c t s) p.1 q in
        (
          s',
          e
              ∙ meant_all-agree cs (view (call c t)) (meant c (view t)) b j
                  (λ a k r. call-view c t a k s p.0 r) q,
        )
