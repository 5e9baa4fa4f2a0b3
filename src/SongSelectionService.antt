-- ===== src/SongSelectionService.antt =====
-- domain/services/SongSelectionService.ts and domain/services/readiness.ts. The phrases and the songs
-- are arguments, and so are the random index and the fresh id, which come from node:crypto.
pub mod Attempts
pub mod Choices
pub mod Contests
pub mod Fallback
pub mod Winners
use dance_sync_back_end.Base.{
  ℕ, zero, suc, ◌+◌, Bool, true, false, not, ◌&&◌, ◌||◌, Option, none, some, List, [], ◌∷◌, ◌++◌,
  map, Text, ◌==◌, get_or, ltb, leb, nat_eq, is_some, if◌then◌else◌, length, get_elem?, filter, any,
  all, find, includes,
}
use dance_sync_back_end.Errors.{
  Result, ok, err, range_error, throw, throw_if, ◌>>=◌, ◌>>◌, players_not_ready, room_not_waiting,
  song_selection_in_progress, not_enough_dancers, song_selection_not_active,
  not_challenge_participant, player_not_in_room, attempt_already_used, not_song_chooser,
  invalid_song,
}
use dance_sync_back_end.Model.{
  Room, Player, Song, SongSelection, SongSelectionPhase, SongChallenge, ChooserReason, typing,
  choosing, done, typed, timeout, all_failed, chooser_left, is_typing, is_choosing, is_waiting,
  is_dancer, min_dancers_per_battle, Setting, whole, fraction, negative, not_finite,
}
use dance_sync_back_end.Identity.{Unicode, normalize_attempt}

-- (length: number) => number
abbrev pub RandomIndex : Type 0
RandomIndex = ℕ → ℕ

-- xs[random(xs.length)]. On an empty array randomInt(0) throws a RangeError; an index out of range,
-- which the contract of RandomIndex excludes, is read as that failure too.
unfoldable pub pick {ℓ} : {A : Type ℓ} → RandomIndex → List A → Result A
pick random xs = elim (get_elem? xs (random (length xs))) [ none ↦ err range_error | some a ↦ ok a ]

pub data SubmitOutcome : Type 0 where
  accepted incorrect expired : SubmitOutcome

pub record StartChallengeOptions : Type 0 where
  pub now : ℕ
  pub duration_ms : ℕ
  pub choose_ms : Setting
  pub random : RandomIndex
  pub phrases : List Text
  pub songs : List Song
  pub challenge_id : Text

unfoldable pub require_everyone_ready : Room → Result (Unit {0})
require_everyone_ready room = throw_if (any (λ p. not p.ready) room.players) players_not_ready

unfoldable pub is_selection_in_progress : Room → Bool
is_selection_in_progress room = elim room.song_selection [
  | none ↦ false
  | some selection ↦ is_typing selection.phase || is_choosing selection.phase
]

-- More than 0 ms. What is stored is the whole part, which is all that a Date keeps of it.
pub positive_ms : Setting → Result ℕ
positive_ms (whole zero) = err range_error
positive_ms (whole (suc n)) = ok (suc n)
positive_ms (fraction n) = ok n
positive_ms negative = err range_error
positive_ms not_finite = err range_error

-- phrases.filter((p) => p !== previous), when there is a choice
pub phrase_pool : List Text → Option SongSelection → List Text
phrase_pool phrases none = phrases
phrase_pool phrases (some selection) =
    if ltb 1 (length phrases)
    then filter (λ p. not (p == selection.challenge.phrase)) phrases
    else phrases

abbrev pub dancer_ids_of : List Player → List Text
dancer_ids_of players = map (λ p. p.id) (filter (λ p. is_dancer p.role) players)

unfoldable pub start : Room → StartChallengeOptions → Result Room
unfolding positive_ms phrase_pool require_everyone_ready is_selection_in_progress pick
start room o = do
  choose_ms ← positive_ms o.choose_ms
  throw_if (not (is_waiting room.status)) room_not_waiting
  throw_if (is_selection_in_progress room) song_selection_in_progress
  let participant_ids = dancer_ids_of room.players
  throw_if (ltb (length participant_ids) min_dancers_per_battle) not_enough_dancers
  require_everyone_ready room
  phrase ← pick o.random (phrase_pool o.phrases room.song_selection)
  ok (record room {
    song_selection = some (record {
      phase = typing;
      challenge = record {
        id = o.challenge_id;
        phrase = phrase;
        started_at = o.now;
        expires_at = o.now + o.duration_ms;
      };
      participant_ids = participant_ids;
      failed_ids = [];
      chooser_id = none;
      chooser_reason = none;
      song_options = o.songs;
      choose_ms = choose_ms;
      choose_deadline = none;
      auto_picked = false;
    });
    selected_song = none;
  })

abbrev pub is_present : Room → Text → Bool
is_present room id = any (λ p. p.id == id) room.players

unfoldable pub require_typing : Room → Result SongSelection
require_typing room = elim room.song_selection [
  | none ↦ throw song_selection_not_active
  | some selection ↦
      if is_typing selection.phase then ok selection else throw song_selection_not_active
]

-- `choosing` of the source
abbrev pub hand_choice : SongSelection → Text → ChooserReason → ℕ → SongSelection
hand_choice selection chooser_id reason now = record selection {
  phase = choosing;
  chooser_id = some chooser_id;
  chooser_reason = some reason;
  choose_deadline = some (now + selection.choose_ms);
}

-- notFailed.length > 0 ? notFailed : present
abbrev pub fallback_candidates : Room → SongSelection → List Text
fallback_candidates room selection =
    let present = filter (is_present room) selection.participant_ids in
    let not_failed = filter (λ id. not (includes selection.failed_ids id)) present in
    if ltb 0 (length not_failed) then not_failed else present

unfoldable pub assign_fallback_chooser :
    Room → SongSelection → ChooserReason → RandomIndex → ℕ → Result Room
unfolding pick
assign_fallback_chooser room selection reason random now =
    if nat_eq (length (fallback_candidates room selection)) 0
    then ok (record room { song_selection = none })
    else do
      chooser_id ← pick random (fallback_candidates room selection)
      ok (record room { song_selection = some (hand_choice selection chooser_id reason now) })
