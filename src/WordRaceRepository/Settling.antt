-- ===== src/WordRaceRepository/Settling.antt =====
-- Sequences of openRound, claimRound and expireRound of InMemoryWordRaceRepository.ts.
use dance_sync_back_end.Base.{
  one_if, ℕ, ◌+◌, ◌≤◌, ◌⊎◌, ◌≡◌, refl, Bool, true, false, ◌&&◌, ◌||◌, Option, none, some, List, [],
  ◌∷◌, map, Text, ◌==◌, lookup, insert, is_some, if◌then◌else◌, arith, inl, inr, Option-cases,
  Bool-cases,
}
use dance_sync_back_end.Model.{WordRace, WordRound, opened, won, expired, is_scheduled, is_opened}
use dance_sync_back_end.Identity.{Unicode}
use dance_sync_back_end.WordRaceRepository.{
  count_win, Races, ClaimRoundResult, claimed, unclaimed, find_round, replace_round, with_round,
  is_claimable, is_expirable, key, found_round, open_round, claim_round, expire_round,
}
use dance_sync_back_end.WordRaceRepository.FoundRounds.{round_in, round_in-insert}

-- One call of the repository on a round.
pub data RaceStep : Type 0 where
  opens : Text → Text → RaceStep
  claims : Text → Text → Text → ℕ → RaceStep
  expires : Text → Text → ℕ → RaceStep

abbrev pub is_claimed : ClaimRoundResult → Bool
is_claimed (claimed round) = true
is_claimed (unclaimed round) = false

-- The round can still be won or expire.
abbrev pub is_live : WordRound → Bool
is_live round = is_scheduled round.status || is_opened round.status

abbrev pub live : Option WordRound → ℕ
live none = 0
live (some round) = if is_live round then 1 else 0

-- Replacing a live round uses up its life at most once.
replace-live :
    (k i : Text) (races : Races) (race scored : WordRace) (round next : WordRound) (j m : Text)
    (settled : Bool)
    → lookup k races ≡ some race
    → find_round race.rounds i ≡ some round
    → next.id ≡ round.id
    → scored.rounds ≡ map (replace_round next) race.rounds
    → is_live round ≡ true
    → one_if settled + live (some next) ≤ 1
    → one_if ((k == j) && (i == m) && settled) + live (round_in j m (insert k scored races))
      ≤ live (round_in j m races)
replace-live k i races race scored round next j m settled e f g h alive once =
    rw (round_in-insert k i races race scored round next j m e f g h)
      (here (Bool-cases ((k == j) && (i == m))))
  where
    here :
        (((k == j) && (i == m)) ≡ true) ⊎ (((k == j) && (i == m)) ≡ false)
        → one_if ((k == j) && (i == m) && settled)
            + live (if (k == j) && (i == m) then some next else round_in j m races)
          ≤ live (round_in j m races)
    here (inl same) = ground (arith, e, f, alive, once)
    here (inr other) = ground (arith, other)

module _ (u : Unicode) where
  -- Whether the step settled its round, and the races after it.
  unfoldable pub take_step : RaceStep → Races → Bool × Races
  take_step (opens code round_id) races = (false, (open_round u code round_id races).1)
  take_step (claims code round_id player_id now) races =
      let (r, after) = claim_round u code round_id player_id now races in (is_claimed r, after)
  take_step (expires code round_id now) races =
      let (r, after) = expire_round u code round_id now races in (is_some r, after)

  -- Whether the step is about the round `round_id` of the race under `k`.
  abbrev pub is_about : Text → Text → RaceStep → Bool
  is_about k round_id (opens code id) = (key u code == k) && (id == round_id)
  is_about k round_id (claims code id player_id now) = (key u code == k) && (id == round_id)
  is_about k round_id (expires code id now) = (key u code == k) && (id == round_id)

  -- How many of the steps settle the round.
  unfoldable pub settlements : Text → Text → List RaceStep → Races → ℕ
  unfolding take_step
  settlements k round_id [] races = 0
  settlements k round_id (s ∷ steps) races =
      one_if (is_about k round_id s && (take_step s races).0)
      + settlements k round_id steps (take_step s races).1

  pub found_round-cases :
      (code id : Text) (races : Races)
      → (found_round u code id races ≡ none)
        ⊎ ((race : WordRace) × (round : WordRound) × (lookup (key u code) races ≡ some race)
            × (find_round race.rounds id ≡ some round)
            × (found_round u code id races ≡ some (race, round)))
  unfolding found_round
  found_round-cases code id races = elim (Option-cases (lookup (key u code) races)) [
    | inl e ↦ inl (ground arith)
    | inr (race, e) ↦ elim (Option-cases (find_round race.rounds id)) [
      | inl f ↦ inl (ground (arith, e, f))
      | inr (round, f) ↦ inr (race, round, e, f, ground (arith, e, f))
    ]
  ]

  module _ (code id : Text) (races : Races) (k j : Text) where
    -- What a step on the round may leave alive, and whether it settled it.
    abbrev Spends : Bool → Races → Type 0
    Spends settled after =
        one_if ((key u code == k) && (id == j) && settled) + live (round_in k j after)
        ≤ live (round_in k j races)

    Spends-none : Spends false races
    Spends-none = ground arith

    module _ (race : WordRace) (round : WordRound) (e : lookup (key u code) races ≡ some race)
        (f : find_round race.rounds id ≡ some round) where
      Spends-one :
          (scored : WordRace) (next : WordRound) (settled : Bool)
          → next.id ≡ round.id
          → scored.rounds ≡ map (replace_round next) race.rounds
          → is_live round ≡ true
          → one_if settled + live (some next) ≤ 1
          → Spends settled (insert (key u code) scored races)
      Spends-one scored next settled =
          replace-live (key u code) id races race scored round next k j settled e f

    open-live : Spends false (open_round u code id races).1
    unfolding open_round
    open-live = elim (found_round-cases code id races) [
      | inl e ↦ rw (e, open_round) Spends-none
      | inr (race, round, e, f, g) ↦ elim (Bool-cases (is_scheduled round.status)) [
        | inl now ↦
            rw (g, now, open_round)
              (Spends-one race round e f (with_round race (record round { status = opened }))
                (record round { status = opened }) false refl refl (ground arith) (omega arith))
        | inr never ↦ rw (g, never, open_round) Spends-none
      ]
    ]

    claim-live :
        (player_id : Text) (now : ℕ)
        → Spends
            (is_claimed (claim_round u code id player_id now races).0)
            (claim_round u code id player_id now races).1
    unfolding claim_round
    claim-live player_id now = elim (found_round-cases code id races) [
      | inl e ↦ rw (e, claim_round) Spends-none
      | inr (race, round, e, f, g) ↦ elim (Bool-cases (is_claimable round now)) [
        | inl yes_now ↦
            let next : WordRound = record round { status = won; winner_id = some player_id } in
            rw (g, yes_now, claim_round)
              (Spends-one race round e f
                (record (with_round race next) { wins = count_win player_id race.wins }) next true
                refl refl (ground arith) (omega arith))
        | inr not_now ↦ rw (g, not_now, claim_round) Spends-none
      ]
    ]

    expire-live :
        (now : ℕ)
        → Spends (is_some (expire_round u code id now races).0) (expire_round u code id now races).1
    unfolding expire_round
    expire-live now = elim (found_round-cases code id races) [
      | inl e ↦ rw (e, expire_round) Spends-none
      | inr (race, round, e, f, g) ↦ elim (Bool-cases (is_expirable round now)) [
        | inl yes_now ↦
            rw (g, yes_now, expire_round)
              (Spends-one race round e f (with_round race (record round { status = expired }))
                (record round { status = expired }) true refl refl (ground arith) (omega arith))
        | inr not_now ↦ rw (g, not_now, expire_round) Spends-none
      ]
    ]

  pub step-live :
      (s : RaceStep) (races : Races) (k j : Text)
      → one_if (is_about k j s && (take_step s races).0) + live (round_in k j (take_step s races).1)
        ≤ live (round_in k j races)
  unfolding take_step
  step-live (opens code id) races k j = open-live code id races k j
  step-live (claims code id player_id now) races k j = claim-live code id races k j player_id now
  step-live (expires code id now) races k j = expire-live code id races k j now

  settlements-le-live :
      (k j : Text) (steps : List RaceStep) (races : Races)
      → settlements k j steps races ≤ live (round_in k j races)
  unfolding settlements
  settlements-le-live k j [] races = omega arith
  settlements-le-live k j (s ∷ steps) races =
      omega (arith, step-live s races k j, settlements-le-live k j steps (take_step s races).1)

  pub live-le : (r : Option WordRound) → live r ≤ 1
  live-le none = omega arith
  live-le (some r) = ground arith

  -- However openings, claims by any players and expiries of any rounds interleave, a round is
  -- settled at most once: at most one claim of it succeeds, and never both a claim and an expiry.
  pub settlements-le_one :
      (k j : Text) (steps : List RaceStep) (races : Races) → settlements k j steps races ≤ 1
  settlements-le_one k j steps races =
      omega (arith, settlements-le-live k j steps races, live-le (round_in k j races))
