-- ===== src/WordRaceRepository/Races.antt =====
-- The stored races under the methods of InMemoryWordRaceRepository.ts and StartWordRace.ts.
use dance_sync_back_end.Base.{
  ℕ, ◌+◌, ◌≡◌, refl, some, List, [], ◌∷◌, Text, lookup, insert, arith, inl, inr, Bool-cases, All,
  All-insert, All-remove, All-lookup,
}
use dance_sync_back_end.Errors.{Result, ok, err, Ensures, Ensures-bind}
use dance_sync_back_end.Model.{
  Room, Battle, WordRace, WordRound, opened, won, expired, is_scheduled,
}
use dance_sync_back_end.Identity.{Unicode}
use dance_sync_back_end.ScoringService.Counts.{lookup-zeros_onto}
use dance_sync_back_end.RoomService.Battles.{running_battle}
use dance_sync_back_end.WordRaceService.{
  PlanWordRaceOptions, plan, race_of, planned_offsets, rounds_from,
}
use dance_sync_back_end.WordRaceService.Rounds.{rounds_from-Distinct}
use dance_sync_back_end.WordRaceRepository.{
  count_win, Races, is_claimable, is_expirable, with_round, key, save_race, delete_race, open_round,
  claim_round, expire_round,
}
use dance_sync_back_end.WordRaceRepository.Settling.{
  RaceStep, opens, claims, expires, take_step, found_round-cases,
}
use dance_sync_back_end.WordRaceRepository.Tally.{
  IsTallied, rounds_won, moved-IsTallied, claimed-IsTallied,
}

abbrev pub AllTallied : Races → Type 0
AllTallied races = All (λ e. IsTallied e.1) races

nobody_won :
    (b : Battle) (window_ms n : ℕ) (ws : List Text) (xs : List ℕ) (player_id : Text)
    → rounds_won player_id (rounds_from b window_ms n ws xs) ≡ 0
unfolding rounds_from
nobody_won b window_ms n [] xs player_id = refl
nobody_won b window_ms n (w ∷ ws) [] player_id = refl
nobody_won b window_ms n (w ∷ ws) (x ∷ xs) player_id =
    omega (arith, nobody_won b window_ms (n + 1) ws xs player_id)

race_of-IsTallied :
    (room : Room) (b : Battle) (o : PlanWordRaceOptions) (picked : List Text)
    → IsTallied (race_of room b o picked)
race_of-IsTallied room b o picked = record {
  distinct = rounds_from-Distinct b o.window_ms 1 picked (planned_offsets b o);
  counted = λ j. ground (
    arith,
    lookup-zeros_onto [] b.dancer_ids j,
    nobody_won b o.window_ms 1 picked (planned_offsets b o) j,
  );
}

plan-IsTallied : (room : Room) (o : PlanWordRaceOptions) → Ensures IsTallied (plan room o)
unfolding plan
plan-IsTallied room o = Ensures-bind IsTallied (running_battle room) _ λ b _.
    Ensures-bind IsTallied _ (λ picked. ok (race_of room b o picked))
      λ picked _. race_of-IsTallied room b o picked

-- StartWordRace for the room that was found, StopWordRace, or a step on a round.
pub data RaceChange : Type 0 where
  starts : Room → PlanWordRaceOptions → RaceChange
  stops : Text → RaceChange
  steps : RaceStep → RaceChange

module _ (u : Unicode) where
  abbrev pub save_planned : Result WordRace → Races → Races
  save_planned (ok race) races = save_race u race races
  save_planned (err e) races = races

  unfoldable pub change_races : RaceChange → Races → Races
  change_races (starts room o) races = save_planned (plan room o) races
  change_races (stops code) races = delete_race u code races
  change_races (steps s) races = (take_step u s races).1

  unfoldable pub change_all : List RaceChange → Races → Races
  unfolding change_races
  change_all [] races = races
  change_all (c ∷ changes) races = change_all changes (change_races c races)

  save_planned-AllTallied :
      (r : Result WordRace) (races : Races)
      → Ensures IsTallied r
      → AllTallied races
      → AllTallied (save_planned r races)
  unfolding save_race
  save_planned-AllTallied (ok race) races t h =
      All-insert (λ e. IsTallied e.1) (key u race.room_code) race races t h
  save_planned-AllTallied (err e) races t h = h

  module _ (code id : Text) (races : Races) (h : AllTallied races) where
    replaced : (race : WordRace) → IsTallied race → AllTallied (insert (key u code) race races)
    replaced race t = All-insert (λ e. IsTallied e.1) (key u code) race races t h

    stored : (race : WordRace) → lookup (key u code) races ≡ some race → IsTallied race
    stored race e = All-lookup IsTallied (key u code) races race h e

    open-AllTallied : AllTallied (open_round u code id races).1
    unfolding open_round
    open-AllTallied = elim (found_round-cases u code id races) [
      | inl e ↦ rw (e, open_round) h
      | inr (race, round, e, f, g) ↦ elim (Bool-cases (is_scheduled round.status)) [
        | inl now ↦
            let next : WordRound = record round { status = opened } in
            rw (g, now, open_round)
              (replaced (with_round race next)
                (moved-IsTallied race id round (stored race e) f next refl refl))
        | inr never ↦ rw (g, never, open_round) h
      ]
    ]

    claim-AllTallied :
        (player_id : Text) (now : ℕ) → AllTallied (claim_round u code id player_id now races).1
    unfolding claim_round
    claim-AllTallied player_id now = elim (found_round-cases u code id races) [
      | inl e ↦ rw (e, claim_round) h
      | inr (race, round, e, f, g) ↦ elim (Bool-cases (is_claimable round now)) [
        | inl yes_now ↦
            let next : WordRound = record round { status = won; winner_id = some player_id } in
            rw (g, yes_now, claim_round)
              (replaced (record (with_round race next) { wins = count_win player_id race.wins })
                (claimed-IsTallied race id round (stored race e) f next player_id refl refl
                  (ground arith)))
        | inr not_now ↦ rw (g, not_now, claim_round) h
      ]
    ]

    expire-AllTallied : (now : ℕ) → AllTallied (expire_round u code id now races).1
    unfolding expire_round
    expire-AllTallied now = elim (found_round-cases u code id races) [
      | inl e ↦ rw (e, expire_round) h
      | inr (race, round, e, f, g) ↦ elim (Bool-cases (is_expirable round now)) [
        | inl yes_now ↦
            let next : WordRound = record round { status = expired } in
            rw (g, yes_now, expire_round)
              (replaced (with_round race next)
                (moved-IsTallied race id round (stored race e) f next refl refl))
        | inr not_now ↦ rw (g, not_now, expire_round) h
      ]
    ]

  change-AllTallied :
      (c : RaceChange) (races : Races) → AllTallied races → AllTallied (change_races c races)
  unfolding change_races take_step delete_race
  change-AllTallied (starts room o) races h =
      save_planned-AllTallied (plan room o) races (plan-IsTallied room o) h
  change-AllTallied (stops code) races h = All-remove (λ e. IsTallied e.1) (key u code) races h
  change-AllTallied (steps (opens code id)) races h = open-AllTallied code id races h
  change-AllTallied (steps (claims code id player_id now)) races h =
      claim-AllTallied code id races h player_id now
  change-AllTallied (steps (expires code id now)) races h = expire-AllTallied code id races h now

  -- When every stored race has distinct round ids and wins that count the rounds each player won,
  -- this still holds after any sequence of races planned and stored, races deleted, and rounds
  -- opened, claimed and expired.
  pub change_all-AllTallied :
      (changes : List RaceChange) (races : Races)
      → AllTallied races
      → AllTallied (change_all changes races)
  unfolding change_all
  change_all-AllTallied [] races h = h
  change_all-AllTallied (c ∷ changes) races h =
      change_all-AllTallied changes (change_races c races) (change-AllTallied c races h)
