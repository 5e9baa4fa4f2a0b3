-- ===== src/WordRaceService.antt =====
-- domain/services/WordRaceService.ts. The words are an argument, and so are the random draws: each
-- call of `random` is one more draw. The products of the song's length with the two margin ratios
-- are floating-point numbers, so their rounded values are arguments too.
pub mod Offsets
pub mod Words
pub mod Rounds
pub mod Plans
use dance_sync_back_end.Base.{
  ℕ, zero, suc, ◌+◌, ◌-◌, ◌*◌, ◌/◌, Bool, not, ◌||◌, Option, none, some, List, [], ◌∷◌, ◌++◌, map,
  Text, ◌==◌, get_or, ltb, leb, nat_eq, if◌then◌else◌, length, find, includes, sort, insert_all,
  Dict,
}
use dance_sync_back_end.Errors.{
  Result, ok, err, range_error, throw, throw_if, ◌>>=◌, ◌>>◌, not_challenge_participant,
  word_round_not_open,
}
use dance_sync_back_end.Model.{
  Room, Player, Battle, WordRace, WordRound, scheduled, is_scheduled, is_expired,
}
use dance_sync_back_end.Identity.{Unicode, normalize_attempt, decimal}
use dance_sync_back_end.SongSelectionService.{RandomIndex}
use dance_sync_back_end.RoomService.Battles.{running_battle}

-- The random index of each call, in order.
abbrev pub Draws : Type 0
Draws = ℕ → RandomIndex

-- The draws after the first n.
abbrev pub skip : ℕ → Draws → Draws
skip n draws = λ k. draws (n + k)

pub record PlanWordRaceOptions : Type 0 where
  pub rounds : ℕ
  pub window_ms : ℕ
  pub min_gap_ms : ℕ
  pub fallback_duration_ms : ℕ
  -- Math.ceil(songMs * startMarginRatio) and Math.floor(songMs * endMarginRatio)
  pub start_margin : ℕ → ℕ
  pub end_margin : ℕ → ℕ
  pub draws : Draws
  pub words : List Text
  pub offsets_ms : Option (List ℕ)

pub data WordJudgement : Type 0 where
  correct incorrect expired : WordJudgement

abbrev pub max : ℕ → ℕ → ℕ
max a b = if leb a b then b else a

abbrev pub min : ℕ → ℕ → ℕ
min a b = if leb a b then a else b

-- Math.min(rounds, Math.floor(span / step) + 1): a division by 0 is Infinity, or NaN for 0 / 0, with
-- which Array.from makes no entry.
pub rounds_that_fit : ℕ → ℕ → ℕ → ℕ
rounds_that_fit rounds span zero = if nat_eq span 0 then 0 else rounds
rounds_that_fit rounds span (suc s) = min rounds (span / suc s + 1)

-- Array.from({ length: count }, () => random(n))
pub draw_points : ℕ → ℕ → Draws → List ℕ
draw_points zero n draws = []
draw_points (suc count) n draws = draws 0 n ∷ draw_points count n (skip 1 draws)

-- points.map((point, i) => first + point + i * step), from `i` on
pub spread : ℕ → ℕ → ℕ → List ℕ → List ℕ
spread first step i [] = []
spread first step i (point ∷ points) = (first + point + i * step) ∷ spread first step (i + 1) points

-- The offsets, where `last_ms` is the end of the usable part: lastOpen is last_ms - windowMs.
unfoldable pub random_offsets : ℕ → ℕ → ℕ → ℕ → ℕ → Draws → List ℕ
unfolding rounds_that_fit draw_points spread sort
random_offsets rounds window_ms min_gap_ms first last_ms draws =
    let step = max min_gap_ms window_ms in
    let span = last_ms - window_ms - first in
    let count = rounds_that_fit rounds span step in
    let slack = span - (count - 1) * step in
    if nat_eq rounds 0 || ltb last_ms (first + window_ms)
    then []
    else spread first step 0 (sort leb (draw_points count (slack + 1) draws))

-- remaining.splice(i, 1): the entry at `i`, and the rest
pub splice : List Text → ℕ → Option (Text × List Text)
splice [] i = none
splice (w ∷ ws) zero = some (w, ws)
splice (w ∷ ws) (suc i) = elim (splice ws i) [
  | none ↦ none
  | some (picked, rest) ↦ some (picked, w ∷ rest)
]

-- At most `count` words. An index out of range, which the contract of RandomIndex excludes, is
-- read as a failure.
unfoldable pub pick_distinct : List Text → ℕ → Draws → Result (List Text)
unfolding splice
pick_distinct remaining zero draws = ok []
pick_distinct [] (suc count) draws = ok []
pick_distinct (w ∷ ws) (suc count) draws = elim (splice (w ∷ ws) (draws 0 (length (w ∷ ws)))) [
  | none ↦ err range_error
  | some (word, rest) ↦ do more ← pick_distinct rest count (skip 1 draws); ok (word ∷ more)
]

abbrev pub round_of : Battle → ℕ → ℕ → Text → ℕ → WordRound
round_of battle window_ms number word offset = record {
  id = battle.id ++ 58 ∷ decimal number;
  number = number;
  word = word;
  opens_at = battle.started_at + offset;
  closes_at = battle.started_at + offset + window_ms;
  winner_id = none;
  status = scheduled;
}

-- picked.map((word, i) => …), from number `n` on; there are no more words than offsets.
unfoldable pub rounds_from : Battle → ℕ → ℕ → List Text → List ℕ → List WordRound
rounds_from battle window_ms n [] offsets = []
rounds_from battle window_ms n (w ∷ ws) [] = []
rounds_from battle window_ms n (w ∷ ws) (offset ∷ offsets) =
    round_of battle window_ms n w offset ∷ rounds_from battle window_ms (n + 1) ws offsets

-- room.players.find((p) => p.id === id)?.displayName ?? id
abbrev pub name_of : Room → Text → Text
name_of room id = elim (find (λ (p : Player). p.id == id) room.players) [
  | none ↦ id
  | some p ↦ p.display_name
]

abbrev pub song_ms_of : Battle → ℕ → ℕ
song_ms_of battle fallback_ms = elim battle.song [
  | none ↦ fallback_ms
  | some song ↦ song.duration_seconds * 1000
]

abbrev pub planned_offsets : Battle → PlanWordRaceOptions → List ℕ
planned_offsets battle o =
    let song_ms = song_ms_of battle o.fallback_duration_ms in
    elim o.offsets_ms [
      | some offsets ↦ sort leb offsets
      | none ↦
          random_offsets o.rounds o.window_ms o.min_gap_ms (o.start_margin song_ms)
            (o.end_margin song_ms) o.draws
    ]

-- The draws left for the words: a random timeline took one for each offset.
abbrev pub draws_after : Option (List ℕ) → ℕ → Draws → Draws
draws_after none n draws = skip n draws
draws_after (some offsets) n draws = draws

-- The race of a battle, once its words are picked.
abbrev pub race_of : Room → Battle → PlanWordRaceOptions → List Text → WordRace
race_of room battle o picked = record {
  room_code = room.code;
  battle_id = battle.id;
  participant_ids = battle.dancer_ids;
  participant_names = insert_all [] (map (λ id. (id, name_of room id)) battle.dancer_ids);
  rounds = rounds_from battle o.window_ms 1 picked (planned_offsets battle o);
  wins = insert_all [] (map (λ id. (id, 0)) battle.dancer_ids);
}

unfoldable pub plan : Room → PlanWordRaceOptions → Result WordRace
unfolding random_offsets pick_distinct rounds_from running_battle
plan room o = do
  battle ← running_battle room
  let count = length (planned_offsets battle o)
  picked ← pick_distinct o.words count (draws_after o.offsets_ms count o.draws)
  ok (race_of room battle o picked)

module _ (u : Unicode) where
  unfoldable pub judge : WordRound → List Text → Text → Text → ℕ → Result WordJudgement
  judge round participant_ids player_id attempt now = do
    throw_if (not (includes participant_ids player_id)) not_challenge_participant
    throw_if (is_scheduled round.status) word_round_not_open
    if is_expired round.status || leb round.closes_at now
        then ok expired
        else if u.to_lower_case (normalize_attempt u attempt) == round.word
        then ok correct
        else ok incorrect
