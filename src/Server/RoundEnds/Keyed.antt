-- ===== src/Server/RoundEnds/Keyed.antt =====
-- The races of InMemoryWordRaceRepository.ts stand under the keys of their rooms.
use dance_sync_back_end.Base.{
  ℕ, ◌≡◌, refl, List, [], ◌∷◌, ◌==◌, eq→path, some, Text, insert, lookup, All, All-insert,
  All-remove, arith, inl, inr, Bool-cases, Option-cases,
}
use dance_sync_back_end.Model.{WordRace, WordRound, won, expired, is_scheduled, opened}
use dance_sync_back_end.Identity.{Unicode}
use dance_sync_back_end.RoomRepository.{Rooms, find_by_code}
use dance_sync_back_end.WordRaceRepository.{
  Races, key, with_round, count_win, is_claimable, is_expirable, open_round, claim_round,
  expire_round, delete_race, find_race,
}
use dance_sync_back_end.WordRaceRepository.FoundRounds.{find_round-id}
use dance_sync_back_end.WordRaceRepository.Settling.{found_round-cases}
use dance_sync_back_end.Errors.{Result, ok, err}
use dance_sync_back_end.WordRaceService.{plan}
use dance_sync_back_end.WordRaceRepository.{save_race}
use dance_sync_back_end.WordRaceRepository.Races.{
  RaceChange, starts, stops, steps, save_planned, change_races, change_all,
}
use dance_sync_back_end.WordRaceRepository.Settling.{RaceStep, take_step}
use dance_sync_back_end.UseCases.WordRaces.{is_in_battle, open_word_round}

module _ (u : Unicode) where
  abbrev pub IsKeyed : Races → Type 0
  IsKeyed = All (λ e. key u e.1.room_code ≡ e.0)

  pub lookup-IsKeyed :
      (k : Text) (races : Races) (race : WordRace)
      → IsKeyed races
      → lookup k races ≡ some race
      → key u race.room_code ≡ k
  lookup-IsKeyed k [] race h e = absurd (ground arith)
  lookup-IsKeyed k ((j, r) ∷ races) race h e = elim (Bool-cases (j == k)) [
    | inl hit ↦
        let same : r ≡ race = ground (arith, e, hit) in
        let named : j ≡ k = eq→path j k hit in ground (arith, h.0, same, named)
    | inr miss ↦ lookup-IsKeyed k races race h.1 (ground (arith, e, miss))
  ]

  module _ (code id : Text) (races : Races) (h : IsKeyed races) where
    replaced :
        (race scored : WordRace)
        → lookup (key u code) races ≡ some race
        → scored.room_code ≡ race.room_code
        → IsKeyed (insert (key u code) scored races)
    replaced race scored e same =
        All-insert (λ e. key u e.1.room_code ≡ e.0) (key u code) scored races
          (ground (arith, same, lookup-IsKeyed (key u code) races race h e)) h

    pub open_round-IsKeyed : IsKeyed (open_round u code id races).1
    unfolding open_round with_round
    open_round-IsKeyed = elim (found_round-cases u code id races) [
      | inl e ↦ rw (e, open_round) h
      | inr (race, round, e, f, g) ↦ elim (Bool-cases (is_scheduled round.status)) [
        | inl now ↦
            rw (g, now, open_round)
              (replaced race (with_round race (record round { status = opened })) e refl)
        | inr never ↦ rw (g, never, open_round) h
      ]
    ]

    pub claim_round-IsKeyed :
        (player_id : Text) (now : ℕ) → IsKeyed (claim_round u code id player_id now races).1
    unfolding claim_round with_round
    claim_round-IsKeyed player_id now = elim (found_round-cases u code id races) [
      | inl e ↦ rw (e, claim_round) h
      | inr (race, round, e, f, g) ↦ elim (Bool-cases (is_claimable round now)) [
        | inl yes_now ↦
            let next : WordRound = record round { status = won; winner_id = some player_id } in
            let scored : WordRace = record (with_round race next) {
              wins = count_win player_id race.wins;
            } in
            rw (g, yes_now, claim_round) (replaced race scored e refl)
        | inr not_now ↦ rw (g, not_now, claim_round) h
      ]
    ]

    pub expire_round-IsKeyed : (now : ℕ) → IsKeyed (expire_round u code id now races).1
    unfolding expire_round with_round
    expire_round-IsKeyed now = elim (found_round-cases u code id races) [
      | inl e ↦ rw (e, expire_round) h
      | inr (race, round, e, f, g) ↦ elim (Bool-cases (is_expirable round now)) [
        | inl yes_now ↦
            rw (g, yes_now, expire_round)
              (replaced race (with_round race (record round { status = expired })) e refl)
        | inr not_now ↦ rw (g, not_now, expire_round) h
      ]
    ]

    pub delete_race-IsKeyed : IsKeyed (delete_race u code races)
    unfolding delete_race
    delete_race-IsKeyed = All-remove (λ e. key u e.1.room_code ≡ e.0) (key u code) races h

    pub open_word_round-IsKeyed :
        (rooms : Rooms) → IsKeyed (open_word_round u code id rooms races races).1
    unfolding open_word_round
    open_word_round-IsKeyed rooms = elim (Option-cases (find_race u code races)) [
      | inl e ↦ rw (e, open_word_round) h
      | inr (race, e) ↦ elim (Option-cases (find_by_code u code rooms)) [
        | inl f ↦ rw (e, f, open_word_round) h
        | inr (room, f) ↦ elim (Bool-cases (is_in_battle room race)) [
          | inl g ↦ rw (e, f, g, open_word_round) open_round-IsKeyed
          | inr g ↦ rw (e, f, g, open_word_round) h
        ]
      ]
    ]

  -- The round that expired is the one that was asked for.
  pub expire_round-id :
      (code id : Text) (now : ℕ) (races : Races) (r : WordRound)
      → (expire_round u code id now races).0 ≡ some r
      → r.id ≡ id
  unfolding expire_round
  expire_round-id code id now races r = elim (found_round-cases u code id races) [
    | inl e ↦ rw (e, expire_round) λ c. absurd (ground arith)
    | inr (race, round, e, f, g) ↦ elim (Bool-cases (is_expirable round now)) [
      | inl yes_now ↦
          rw (g, yes_now, expire_round) λ c. ground (arith, c, find_round-id race.rounds id round f)
      | inr not_now ↦ rw (g, not_now, expire_round) λ c. absurd (ground arith)
    ]
  ]

  save_planned-IsKeyed :
      (r : Result WordRace) (races : Races) → IsKeyed races → IsKeyed (save_planned u r races)
  unfolding save_race
  save_planned-IsKeyed (ok race) races h =
      All-insert (λ e. key u e.1.room_code ≡ e.0) (key u race.room_code) race races refl h
  save_planned-IsKeyed (err e) races h = h

  change-IsKeyed :
      (c : RaceChange) (races : Races) → IsKeyed races → IsKeyed (change_races u c races)
  unfolding change_races take_step
  change-IsKeyed (starts room o) races h = save_planned-IsKeyed (plan room o) races h
  change-IsKeyed (stops code) races h = delete_race-IsKeyed code code races h
  change-IsKeyed (steps (RaceStep.opens code id)) races h = open_round-IsKeyed code id races h
  change-IsKeyed (steps (RaceStep.claims code id player_id now)) races h =
      claim_round-IsKeyed code id races h player_id now
  change-IsKeyed (steps (RaceStep.expires code id now)) races h =
      expire_round-IsKeyed code id races h now

  -- Whatever is done to the repository, from an empty one on, the races stand under their keys.
  pub change_all-IsKeyed :
      (changes : List RaceChange) (races : Races)
      → IsKeyed races
      → IsKeyed (change_all u changes races)
  unfolding change_all
  change_all-IsKeyed [] races h = h
  change_all-IsKeyed (c ∷ changes) races h =
      change_all-IsKeyed changes (change_races u c races) (change-IsKeyed c races h)
