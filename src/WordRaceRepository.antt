-- ===== src/WordRaceRepository.antt =====
-- domain/ports/WordRaceRepository.ts and infrastructure/persistence/InMemoryWordRaceRepository.ts. Each
-- method is one synchronous block of the source, so it is one step here.
pub mod FoundRounds
pub mod Settling
pub mod Tally
pub mod Races
use dance_sync_back_end.Base.{
  ℕ, suc, ◌+◌, Bool, true, false, not, ◌&&◌, Option, none, some, List, [], ◌∷◌, map, Text, ◌==◌,
  Dict, lookup, insert, remove, get_or, ltb, leb, is_some, if◌then◌else◌, find,
}
use dance_sync_back_end.Model.{WordRace, WordRound, opened, won, expired, is_scheduled, is_opened}
use dance_sync_back_end.Identity.{Unicode}

-- The Map of the repository.
abbrev pub Races : Type 0
Races = Dict WordRace

pub data ClaimRoundResult : Type 0 where
  claimed : WordRound → ClaimRoundResult
  unclaimed : Option WordRound → ClaimRoundResult

abbrev pub find_round : List WordRound → Text → Option WordRound
find_round rounds round_id = find (λ (r : WordRound). r.id == round_id) rounds

abbrev pub replace_round : WordRound → WordRound → WordRound
replace_round round r = if r.id == round.id then round else r

unfoldable pub with_round : WordRace → WordRound → WordRace
with_round race round = record race { rounds = map (replace_round round) race.rounds }

abbrev pub is_claimable : WordRound → ℕ → Bool
is_claimable round now =
    is_opened round.status && not (is_some round.winner_id) && ltb now round.closes_at

abbrev pub is_expirable : WordRound → ℕ → Bool
is_expirable round now =
    is_opened round.status && not (is_some round.winner_id) && leb round.closes_at now

-- { ...wins, [playerId]: (wins[playerId] ?? 0) + 1 }
abbrev pub count_win : Text → Dict ℕ → Dict ℕ
count_win player_id wins = insert player_id (get_or (lookup player_id wins) 0 + 1) wins

module _ (u : Unicode) where
  abbrev pub key : Text → Text
  key room_code = u.to_upper_case room_code

  unfoldable pub save_race : WordRace → Races → Races
  save_race race races = insert (key race.room_code) race races

  unfoldable pub find_race : Text → Races → Option WordRace
  find_race room_code races = lookup (key room_code) races

  unfoldable pub delete_race : Text → Races → Races
  delete_race room_code races = remove (key room_code) races

  -- The race and its round, if both exist.
  pub found_round : Text → Text → Races → Option (WordRace × WordRound)
  found_round room_code round_id races = elim (lookup (key room_code) races) [
    | none ↦ none
    | some race ↦ elim (find_round race.rounds round_id) [
      | none ↦ none
      | some round ↦ some (race, round)
    ]
  ]

  unfoldable pub open_round : Text → Text → Races → Option WordRound × Races
  unfolding found_round with_round
  open_round room_code round_id races = elim (found_round room_code round_id races) [
    | none ↦ (none, races)
    | some (race, round) ↦
        let next = record round { status = opened } in
        if not (is_scheduled round.status)
        then (none, races)
        else (some next, insert (key room_code) (with_round race next) races)
  ]

  unfoldable pub claim_round : Text → Text → Text → ℕ → Races → ClaimRoundResult × Races
  unfolding found_round with_round
  claim_round room_code round_id player_id now races = elim (found_round room_code round_id races) [
    | none ↦ (unclaimed none, races)
    | some (race, round) ↦
        let next = record round { status = won; winner_id = some player_id } in
        let scored = record (with_round race next) { wins = count_win player_id race.wins } in
        if not (is_claimable round now)
        then (unclaimed (some round), races)
        else (claimed next, insert (key room_code) scored races)
  ]

  unfoldable pub expire_round : Text → Text → ℕ → Races → Option WordRound × Races
  unfolding found_round with_round
  expire_round room_code round_id now races = elim (found_round room_code round_id races) [
    | none ↦ (none, races)
    | some (race, round) ↦
        let next = record round { status = expired } in
        if not (is_expirable round now)
        then (none, races)
        else (some next, insert (key room_code) (with_round race next) races)
  ]
