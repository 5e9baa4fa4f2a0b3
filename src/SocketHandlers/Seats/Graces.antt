-- ===== src/SocketHandlers/Seats/Graces.antt =====
-- The grace of a seat in socketHandlers.ts is never postponed.
use dance_sync_back_end.Base.{
  ℕ, ◌+◌, ◌≡◌, ◌&&◌, Option, none, some, inl, inr, Option-cases, Bool-cases, Text, ◌==◌, lookup,
  has, remove, lookup-insert, lookup-remove, leb, if◌then◌else◌, is_some, text_discrete, arith,
}
use dance_sync_back_end.Identity.{Unicode}
use dance_sync_back_end.Timeouts.{Timeout, Timeouts, cancel, timer_at}
use dance_sync_back_end.Timeouts.Synced.{
  IsSynced, cancel-IsSynced, renew-IsSynced, timer_at-cancel, timer_at-renew,
}
use dance_sync_back_end.SocketHandlers.Seats.{
  Seat, Seats, is_no_later, seat_key, cancel_grace, schedule_grace,
}

abbrev pub due_of : Option (Timeout Seat) → Option ℕ
due_of none = none
due_of (some p) = some p.due

-- When the grace of a key ends, if it has one.
abbrev pub grace_end : Seats → Text → Option ℕ
grace_end s k = due_of (timer_at s.graces k)

-- The deadlines that are noted are those of the timers, and no timer is lost.
pub record IsNoted (s : Seats) : Type 0 where
  pub synced : IsSynced s.graces
  pub noted : (k : Text) → lookup k s.grace_deadlines ≡ grace_end s k

-- The earlier of two moments, the first of which may be missing.
abbrev pub earlier : Option ℕ → ℕ → ℕ
earlier none b = b
earlier (some a) b = if leb a b then a else b

has-timer_at : (t : Timeouts Seat) (k : Text) → IsSynced t → has k t.timers ≡ is_some (timer_at t k)
unfolding timer_at
has-timer_at t k s = elim (Option-cases (lookup k t.timers)) [
  | inl e ↦ ground (arith, e)
  | inr (h, e) ↦ let (p, f, _, _) = s.kept k h e in ground (arith, e, f)
]

-- The grace of a key is dropped, with its timer.
pub cancelled-IsNoted :
    (key : Text) (s : Seats)
    → IsNoted s
    → IsNoted
        (record s { graces = cancel key s.graces; grace_deadlines = remove key s.grace_deadlines })
cancelled-IsNoted key s v = record {
  synced = cancel-IsSynced key s.graces v.synced;
  noted = λ k. ground (
    arith,
    lookup-remove key k s.grace_deadlines,
    v.noted k,
    timer_at-cancel key k s.graces v.synced,
  );
}

module _ (u : Unicode) where
  pub cancel_grace-IsNoted :
      (code id : Text) (s : Seats) → IsNoted s → IsNoted (cancel_grace u code id s)
  unfolding cancel_grace
  cancel_grace-IsNoted code id s v = cancelled-IsNoted (seat_key u code id) s v

  -- When the deadlines noted are those of the timers, scheduling a grace for a seat makes it end at
  -- the earlier of the moment that it ended at and the new one, and leaves every other seat as it
  -- is; and the deadlines noted are again those of the timers.
  pub schedule_grace-earlier :
      (code id : Text) (delay now : ℕ) (s : Seats)
      → IsNoted s
      → IsNoted (schedule_grace u code id delay now s)
        × ((k : Text)
            → grace_end (schedule_grace u code id delay now s) k ≡ (
                if seat_key u code id == k
                then some (earlier (grace_end s k) (now + delay))
                else grace_end s k))
  unfolding schedule_grace
  schedule_grace-earlier code id delay now s v =
      let key = seat_key u code id in
      let t = cancel key s.graces in
      let seat : Seat = record { room_code = code; player_id = id } in
      let synced = cancel-IsSynced key s.graces v.synced in
      elim (Bool-cases
        (has key s.graces.timers && is_no_later (lookup key s.grace_deadlines) (now + delay))) [
          | inl held ↦ rw held (
            v,
            λ k. elim (text_discrete key k) [
              | yes same ↦ ground (arith, held, v.noted key, same)
              | no other ↦ ground (arith, other)
            ],
          )
          | inr free ↦
              let at_key = λ (k : Text). timer_at-renew key k (now + delay) seat t synced in
              let gone = λ (k : Text). timer_at-cancel key k s.graces v.synced in
              rw free (
                record {
                  synced = renew-IsSynced key (now + delay) seat t synced;
                  noted = λ k. ground (
                    arith,
                    lookup-insert key k (now + delay) (remove key s.grace_deadlines),
                    lookup-remove key k s.grace_deadlines,
                    v.noted k,
                    at_key k,
                    gone k,
                  );
                },
                λ k. elim (text_discrete key k) [
                  | yes same ↦
                      ground (
                        arith,
                        free,
                        same,
                        at_key k,
                        v.noted key,
                        has-timer_at s.graces key v.synced,
                      )
                  | no other ↦ ground (arith, other, at_key k, gone k)
                ],
              )
        ]
