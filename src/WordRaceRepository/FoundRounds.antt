-- ===== src/WordRaceRepository/FoundRounds.antt =====
-- Which round an id finds in a stored race, before and after a round is replaced.
use dance_sync_back_end.Base.{
  ◌≡◌, refl, ◌&&◌, Option, none, some, List, [], ◌∷◌, map, Text, ◌==◌, lookup, insert,
  lookup-insert, is_some, if◌then◌else◌, arith, eq_refl, text_discrete,
}
use dance_sync_back_end.Model.{WordRace, WordRound}
use dance_sync_back_end.WordRaceRepository.{Races, find_round, replace_round}

-- The round with an id in the race under a key.
abbrev pub round_in : Text → Text → Races → Option WordRound
round_in k round_id races = elim (lookup k races) [
  | none ↦ none
  | some race ↦ find_round race.rounds round_id
]

pub find_round-id :
    (rounds : List WordRound) (id : Text) (r : WordRound)
    → find_round rounds id ≡ some r
    → r.id ≡ id
find_round-id [] id r e = absurd (ground arith)
find_round-id (x ∷ rounds) id r e = elim (text_discrete x.id id) [
  | yes same ↦ ground arith
  | no other ↦ find_round-id rounds id r (ground arith)
]

pub find_round-replace :
    (next : WordRound) (rounds : List WordRound) (id : Text)
    → find_round (map (replace_round next) rounds) id ≡ (
        if next.id == id
        then (if is_some (find_round rounds id) then some next else none)
        else find_round rounds id)
find_round-replace next [] id = ground arith
find_round-replace next (r ∷ rounds) id = ground (arith, find_round-replace next rounds id)

pub round_in-insert :
    (k i : Text) (races : Races) (race scored : WordRace) (round next : WordRound) (j m : Text)
    → lookup k races ≡ some race
    → find_round race.rounds i ≡ some round
    → next.id ≡ round.id
    → scored.rounds ≡ map (replace_round next) race.rounds
    → round_in j m (insert k scored races)
      ≡ (if (k == j) && (i == m) then some next else round_in j m races)
round_in-insert k i races race scored round next j m e f g h = elim (text_discrete k j) [
  | yes same ↦ ground (
    arith,
    lookup-insert k j scored races,
    h,
    find_round-replace next race.rounds m,
    find_round-id race.rounds i round f,
    g,
  )
  | no other ↦ ground (arith, lookup-insert k j scored races)
]

-- The round that was found is now the new one.
pub round_in-insert_self :
    (k i : Text) (races : Races) (race scored : WordRace) (round next : WordRound)
    → lookup k races ≡ some race
    → find_round race.rounds i ≡ some round
    → next.id ≡ round.id
    → scored.rounds ≡ map (replace_round next) race.rounds
    → round_in k i (insert k scored races) ≡ some next
round_in-insert_self k i races race scored round next e f g h =
    rw (round_in-insert k i races race scored round next k i e f g h)
      (rw (eq_refl k, eq_refl i) refl)
