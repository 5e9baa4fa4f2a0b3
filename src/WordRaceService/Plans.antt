-- ===== src/WordRaceService/Plans.antt =====
-- The race that `plan` of WordRaceService.ts returns.
use dance_sync_back_end.Base.{
  ℕ, ◌+◌, ◌≤◌, ◌<◌, ◌≡◌, refl, sym, subst, true, some, none, List, map, arith, length, All, All-zip,
  Text, Distinct, Option,
}
use dance_sync_back_end.Errors.{ok}
use dance_sync_back_end.Model.{Room, Battle, WordRace, WordRound, is_battling}
use dance_sync_back_end.RoomService.Battles.{running_battle}
use dance_sync_back_end.WordRaceService.{
  PlanWordRaceOptions, max, pick_distinct, rounds_from, song_ms_of, planned_offsets, race_of,
  draws_after, Draws, plan,
}
use dance_sync_back_end.WordRaceService.Offsets.{InRange, IsTimeline, random_offsets-IsTimeline}
use dance_sync_back_end.WordRaceService.Words.{IsPick, pick_distinct-IsPick}
use dance_sync_back_end.WordRaceService.Rounds.{
  Apart, IsFresh, round_ids, All-rounds_from, rounds_from-Apart, length-rounds_from,
  rounds_from-Distinct, words-Distinct,
}

-- The round is open within the usable part of the song.
abbrev pub IsWithin : Battle → PlanWordRaceOptions → WordRound → Type 0
IsWithin b o r =
    let song_ms = song_ms_of b o.fallback_duration_ms in
    (b.started_at + o.start_margin song_ms ≤ r.opens_at)
    × (r.closes_at ≤ b.started_at + o.end_margin song_ms)

pub record IsPlan (b : Battle) (o : PlanWordRaceOptions) (race : WordRace) : Type 0 where
  pub of_battle : race.battle_id ≡ b.id
  pub dancers : race.participant_ids ≡ b.dancer_ids
  pub few : length race.rounds ≤ o.rounds
  pub apart : Apart race.rounds
  pub within : All (IsWithin b o) race.rounds
  pub fresh : All (IsFresh o.window_ms) race.rounds
  pub ids : Distinct (round_ids race.rounds)
  pub words : Distinct o.words → Distinct (map (λ r. r.word) race.rounds)

module _ (b : Battle) (o : PlanWordRaceOptions) (h : InRange o.draws) (positive : 0 < o.window_ms)
    (random : o.offsets_ms ≡ none) where
  abbrev first : ℕ
  first = o.start_margin (song_ms_of b o.fallback_duration_ms)

  abbrev last : ℕ
  last = o.end_margin (song_ms_of b o.fallback_duration_ms)

  abbrev planned : List ℕ
  planned = planned_offsets b o

  timeline : IsTimeline o.rounds o.window_ms o.min_gap_ms first last planned
  timeline =
      rw random
        (random_offsets-IsTimeline o.rounds o.window_ms o.min_gap_ms first last o.draws h positive)

  abbrev rounds_with : List Text → List WordRound
  rounds_with picked = rounds_from b o.window_ms 1 picked planned

  rounds-IsWithin : (picked : List Text) → All (IsWithin b o) (rounds_with picked)
  rounds-IsWithin picked =
      All-rounds_from b o.window_ms (λ x. (first ≤ x) × (x + o.window_ms ≤ last)) (IsWithin b o)
        (λ n w x q. (omega (arith, q.0), omega (arith, q.1))) 1 picked planned
        (All-zip _ _ planned timeline.after timeline.before)

  rounds-IsFresh : (picked : List Text) → All (IsFresh o.window_ms) (rounds_with picked)
  rounds-IsFresh picked =
      All-rounds_from b o.window_ms (λ x. first ≤ x) (IsFresh o.window_ms)
        (λ n w x q. (refl, refl, refl)) 1 picked planned timeline.after

  planned-IsPlan :
      (picked : List Text) (race : WordRace)
      → IsPick o.words (length planned) picked
      → race.battle_id ≡ b.id
      → race.participant_ids ≡ b.dancer_ids
      → race.rounds ≡ rounds_with picked
      → IsPlan b o race
  planned-IsPlan picked race p e d rs = record {
    of_battle = e;
    dancers = d;
    few =
        subst (λ l. length l ≤ o.rounds) (sym rs)
          (ground (arith, length-rounds_from b o.window_ms 1 picked planned, timeline.few));
    apart = subst Apart (sym rs) (
        rounds_from-Apart b o.window_ms (max o.min_gap_ms o.window_ms) 1 picked planned
          (ground arith) timeline.spaced);
    within = subst (All (IsWithin b o)) (sym rs) (rounds-IsWithin picked);
    fresh = subst (All (IsFresh o.window_ms)) (sym rs) (rounds-IsFresh picked);
    ids =
        subst (λ l. Distinct (round_ids l)) (sym rs)
          (rounds_from-Distinct b o.window_ms 1 picked planned);
    words = λ q.
        subst (λ l. Distinct (map (λ r. r.word) l)) (sym rs)
          (words-Distinct b o.window_ms 1 picked planned (p.distinct q));
  }

draws_after-InRange :
    (offsets : Option (List ℕ)) (n : ℕ) (draws : Draws)
    → InRange draws
    → InRange (draws_after offsets n draws)
draws_after-InRange none n draws h = λ k. h (n + k)
draws_after-InRange (some offsets) n draws h = h

running :
    (room : Room) (b : Battle)
    → room.battle ≡ some b
    → is_battling room.status ≡ true
    → running_battle room ≡ ok b
unfolding running_battle
running room b e h = ground arith

plan_steps :
    (room : Room) (b : Battle) (o : PlanWordRaceOptions) (picked : List Text)
    → running_battle room ≡ ok b
    → pick_distinct o.words
        (length (planned_offsets b o))
        (draws_after o.offsets_ms (length (planned_offsets b o)) o.draws)
      ≡ ok picked
    → plan room o ≡ ok (race_of room b o picked)
unfolding plan
plan_steps room b o picked e g = rw (e, g) refl

-- For a room with a battle in progress, without fixed offsets, with every draw in range and a
-- window that is not empty, a race is planned: it is for the dancers of this battle, it has at most
-- the rounds wanted, each with its whole window in the usable part of the song, each window closes
-- before the next opens, no round has been played, and the ids and (if those of the pool are) the
-- words are distinct.
pub plan-IsPlan :
    (room : Room) (b : Battle) (o : PlanWordRaceOptions)
    → room.battle ≡ some b
    → is_battling room.status ≡ true
    → o.offsets_ms ≡ none
    → InRange o.draws
    → 0 < o.window_ms
    → (race : WordRace) × (plan room o ≡ ok race) × IsPlan b o race
plan-IsPlan room b o e s random h positive =
    let (picked, got, p) =
      pick_distinct-IsPick o.words (length (planned_offsets b o))
        (draws_after o.offsets_ms (length (planned_offsets b o)) o.draws)
        (draws_after-InRange o.offsets_ms (length (planned_offsets b o)) o.draws h) in
    (
      _,
      plan_steps room b o picked (running room b e s) got,
      planned-IsPlan b o h positive random picked (race_of room b o picked) p refl refl refl,
    )
