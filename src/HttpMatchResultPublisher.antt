-- ===== src/HttpMatchResultPublisher.antt =====
-- infrastructure/http/HttpMatchResultPublisher.ts: the request that stores a match, and how its answer
-- is read. The fetch itself is the caller's; its answer is an argument.
use dance_sync_back_end.Base.{
  ℕ, zero, suc, ◌-◌, ◌≤◌, ◌<◌, ◌≡◌, ◌≢◌, Bool, false, ◌&&◌, ◌||◌, some, [], ◌∷◌, ◌++◌, nat_eq, leb,
  ltb, Text, text, if◌then◌else◌, arith, refl,
}
use dance_sync_back_end.Model.{MatchRecord, Room}
use dance_sync_back_end.MatchRecordService.{
  Publication, stored, refused, failed, try_from, record_match_result, from_finished_room,
}

-- No answer (the request failed or ran into its timeout), or an answer with a status.
pub data FetchAnswer : Type 0 where
  unreachable : FetchAnswer
  with_status : ℕ → FetchAnswer

-- usersServiceUrl.replace(/\/+$/, "")
abbrev cons_unless_slash : ℕ → Text → Text
cons_unless_slash c [] = if nat_eq c 47 then [] else c ∷ []
cons_unless_slash c (d ∷ s) = c ∷ d ∷ s

unfoldable pub base_url : Text → Text
base_url [] = []
base_url (c ∷ s) = cons_unless_slash c (base_url s)

-- `encode` is encodeURIComponent
unfoldable pub match_url : (Text → Text) → Text → MatchRecord → Text
unfolding base_url
match_url encode users_service_url match =
    base_url users_service_url ++ text "/api/matches/" ++ encode match.id

abbrev pub is_retryable : ℕ → Bool
is_retryable status = leb 500 status || nat_eq status 408 || nat_eq status 429

-- How `publish` ends.
unfoldable pub publish : FetchAnswer → Publication
publish unreachable = failed
publish (with_status status) =
    if leb 200 status && ltb status 300
    then stored
    else if is_retryable status
    then failed
    else refused

tried_once :
    (base_delay_ms : ℕ) (publication : ℕ → Publication) (more : ℕ)
    → publication 1 ≡ refused
    → try_from base_delay_ms publication more 1
      ≡ record { delivered = false; tries = 1; waits = [] }
unfolding try_from
tried_once base_delay_ms publication zero e = rw (e, try_from) refl
tried_once base_delay_ms publication (suc more) e = rw (e, try_from) refl

-- For a room with a match to record, a match that users-service answers with a status of 300 to
-- 499, other than 408 and 429, is sent exactly once and counts as not delivered, however many tries
-- are allowed.
pub refused-IsTriedOnce :
    (attempts base_delay_ms status : ℕ) (answers : ℕ → FetchAnswer) (room : Room) (m : MatchRecord)
    → from_finished_room room ≡ some m
    → answers 1 ≡ with_status status
    → 300 ≤ status
    → status < 500
    → status ≢ 408
    → status ≢ 429
    → record_match_result attempts base_delay_ms (λ k. publish (answers k)) room
      ≡ record { delivered = false; tries = 1; waits = [] }
unfolding publish record_match_result
refused-IsTriedOnce attempts base_delay_ms status answers room m f a low high timeout many =
    let verdict : publish (answers 1) ≡ refused = rw a (ground arith) in
    rw (f, record_match_result)
      (tried_once base_delay_ms (λ k. publish (answers k)) (attempts - 1) verdict)
