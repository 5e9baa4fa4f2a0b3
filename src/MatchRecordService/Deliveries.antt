-- ===== src/MatchRecordService/Deliveries.antt =====
-- The retries of `execute` in RecordMatchResult.ts.
use dance_sync_back_end.Base.{
  ℕ, zero, suc, ◌+◌, ◌-◌, ◌*◌, ◌^◌, ◌≤◌, ◌<◌, ◌≡◌, refl, ap, sym, subst, Bool, true, false, some,
  List, [], ◌∷◌, arith, inl, inr, ◌⊎◌, Bool-cases, leb,
}
use dance_sync_back_end.Model.{Room, MatchRecord}
use dance_sync_back_end.MatchRecordService.{
  Publication, stored, refused, failed, Delivery, last_try, wait_for, try_from, from_finished_room,
  record_match_result,
}

abbrev pub is_stored : Publication → Bool
is_stored stored = true
is_stored _ = false

-- base, 2 * base, 4 * base, …: `n` waits, from the one after try `attempt` on.
abbrev pub backoff : ℕ → ℕ → ℕ → List ℕ
backoff base_delay_ms attempt zero = []
backoff base_delay_ms attempt (suc n) =
    base_delay_ms * 2 ^ (attempt - 1) ∷ backoff base_delay_ms (attempt + 1) n

-- The tries from `attempt` on, of which `more` may follow the first.
pub record IsRetried (base_delay_ms : ℕ) (publish : ℕ → Publication) (more attempt : ℕ)
    (d : Delivery) : Type 0 where
  pub from_first : attempt ≤ d.tries
  pub to_last : d.tries ≤ attempt + more
  pub answer : d.delivered ≡ is_stored (publish d.tries)
  pub retried : (k : ℕ) → attempt ≤ k → k < d.tries → publish k ≡ failed
  pub gave_up : publish d.tries ≡ failed → d.tries ≡ attempt + more
  pub waited : d.waits ≡ backoff base_delay_ms attempt (d.tries - attempt)

module _ (base_delay_ms : ℕ) (publish : ℕ → Publication) where
  once-IsRetried :
      (more attempt : ℕ) (p : Publication)
      → publish attempt ≡ p
      → (p ≡ failed → more ≡ 0)
      → IsRetried base_delay_ms publish more attempt (last_try (is_stored p) attempt)
  once-IsRetried more attempt p e h = record {
    from_first = omega arith;
    to_last = omega arith;
    answer = ap is_stored (sym e);
    retried = λ k a b. absurd (omega arith);
    gave_up = λ f. ground (arith, h, e);
    waited = ap (backoff base_delay_ms attempt) none_left;
  }
    where
      none_left : 0 ≡ attempt - attempt
      none_left = omega arith

  again-IsRetried :
      (more attempt : ℕ) (d : Delivery)
      → publish attempt ≡ failed
      → IsRetried base_delay_ms publish more (attempt + 1) d
      → IsRetried base_delay_ms publish
          (suc more)
          attempt
          (wait_for (base_delay_ms * 2 ^ (attempt - 1)) d)
  again-IsRetried more attempt d e h = record {
    from_first = omega (arith, h.from_first);
    to_last = omega (arith, h.to_last);
    answer = h.answer;
    retried = λ k a b. retried_from k a b (Bool-cases (leb k attempt));
    gave_up = λ f. omega (arith, h.gave_up f);
    waited =
        subst (λ n. base_delay_ms * 2 ^ (attempt - 1) ∷ d.waits ≡ backoff base_delay_ms attempt n)
          (one_more h.from_first) (ap (λ w. base_delay_ms * 2 ^ (attempt - 1) ∷ w) h.waited);
  }
    where
      one_more : attempt + 1 ≤ d.tries → suc (d.tries - (attempt + 1)) ≡ d.tries - attempt
      one_more q = omega arith

      retried_from :
          (k : ℕ)
          → attempt ≤ k
          → k < d.tries
          → (leb k attempt ≡ true) ⊎ (leb k attempt ≡ false)
          → publish k ≡ failed
      retried_from k a b (inl first) = subst (λ n. publish n ≡ failed) (ground arith) e
      retried_from k a b (inr later) = h.retried k (ground arith) b

  try_from-IsRetried :
      (more attempt : ℕ)
      → IsRetried base_delay_ms publish more attempt (try_from base_delay_ms publish more attempt)
  unfolding try_from
  try_from-IsRetried zero attempt = from_answer (publish attempt) refl
    where
      from_answer :
          (p : Publication)
          → publish attempt ≡ p
          → IsRetried base_delay_ms publish 0 attempt (try_from base_delay_ms publish 0 attempt)
      from_answer stored e = rw (e, try_from) (once-IsRetried 0 attempt stored e (λ f. refl))
      from_answer refused e = rw (e, try_from) (once-IsRetried 0 attempt refused e (λ f. refl))
      from_answer failed e = rw (e, try_from) (once-IsRetried 0 attempt failed e (λ f. refl))
  try_from-IsRetried (suc more) attempt =
      from_answer (publish attempt) refl (try_from-IsRetried more (attempt + 1))
    where
      from_answer :
          (p : Publication)
          → publish attempt ≡ p
          → IsRetried base_delay_ms publish more
              (attempt + 1)
              (try_from base_delay_ms publish more (attempt + 1))
          → IsRetried base_delay_ms publish
              (suc more)
              attempt
              (try_from base_delay_ms publish (suc more) attempt)
      from_answer stored e h =
          rw (e, try_from) (once-IsRetried (suc more) attempt stored e (λ f. cc))
      from_answer refused e h =
          rw (e, try_from) (once-IsRetried (suc more) attempt refused e (λ f. cc))
      from_answer failed e h = rw (e, try_from) (again-IsRetried more attempt _ e h)

-- For a room with a match to record, the match is published at least once and at most as often as
-- is allowed (once at least): after each try but the last that was a failure worth retrying, never
-- after one that stored or refused it; it gives up on such a failure only at the last try allowed;
-- true is returned exactly if the last try stored it; and the waits between the tries double from
-- the base.
pub record_match_result-IsRetried :
    (attempts base_delay_ms : ℕ) (publish : ℕ → Publication) (room : Room) (m : MatchRecord)
    → from_finished_room room ≡ some m
    → IsRetried base_delay_ms publish
        (attempts - 1)
        1
        (record_match_result attempts base_delay_ms publish room)
unfolding record_match_result
record_match_result-IsRetried attempts base_delay_ms publish room m e =
    rw (e, record_match_result) (try_from-IsRetried base_delay_ms publish (attempts - 1) 1)
