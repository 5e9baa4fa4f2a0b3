-- ===== src/Config/Timing.antt =====
-- server.ts, lines 46 to 50: the settings that a battle is started with, and that they never make its
-- start fail.
use dance_sync_back_end.Base.{ℕ, ◌≡◌, not, List, [], ◌∷◌, Text, any, find, ltb, length, ◌==◌}
use dance_sync_back_end.Errors.{
  ok, IsExpected, IsExpected-bind, IsExpected-elim, IsExpected-throw_if, IsExpected-check,
  room_not_waiting, song_selection_in_progress, not_enough_dancers, invalid_dancer,
  players_not_ready,
}
use dance_sync_back_end.Model.{
  Room, Player, Setting, whole, fraction, negative, not_finite, Wire, WireItems, string, boolean,
  null, missing, other, array, end, item, is_waiting, min_dancers_per_battle,
}
use dance_sync_back_end.SongSelectionService.{is_selection_in_progress, require_everyone_ready}
use dance_sync_back_end.RoomService.Starting.{
  StartBattleOptions, finite_ms, whole_points, strings, selected_ids, has_duplicates, find_all,
  require_song, start_battle,
}
use dance_sync_back_end.Config.{
  non_negative, positive, positive_integer, ReadsNumber, Source, Env, load_env,
}
use dance_sync_back_end.Config.Accepted.{Meets, load_env-IsConfig}

-- battleTiming, with the time and the fresh id of a start
abbrev pub battle_timing : Env → ℕ → Text → StartBattleOptions
battle_timing env now battle_id = record {
  now = now;
  countdown_ms = env.battle_start_countdown_ms;
  fallback_duration_ms = env.word_race_fallback_duration_ms;
  vote_points = env.vote_points;
  word_bonus_points = env.word_bonus_points;
  battle_id = battle_id;
}

finite_ms-ok : (s : Setting) → Meets non_negative s → IsExpected (finite_ms s)
unfolding finite_ms
finite_ms-ok (whole n) h = tt
finite_ms-ok (fraction n) h = tt
finite_ms-ok negative h = h
finite_ms-ok not_finite h = h

positive-finite : (s : Setting) → Meets positive s → IsExpected (finite_ms s)
unfolding finite_ms
positive-finite (whole n) h = tt
positive-finite (fraction n) h = tt
positive-finite negative h = h
positive-finite not_finite h = h

whole_points-ok : (s : Setting) → Meets positive_integer s → IsExpected (whole_points s)
unfolding whole_points
whole_points-ok (whole n) h = tt
whole_points-ok (fraction n) h = h
whole_points-ok negative h = h
whole_points-ok not_finite h = h

strings-IsExpected : (items : WireItems) → IsExpected (strings items)
unfolding strings
strings-IsExpected end = tt
strings-IsExpected (item (string s) rest) =
    IsExpected-bind (strings rest) _ (strings-IsExpected rest) λ _. tt
strings-IsExpected (item (boolean b) rest) = tt
strings-IsExpected (item null rest) = tt
strings-IsExpected (item missing rest) = tt
strings-IsExpected (item other rest) = tt
strings-IsExpected (item (array items) rest) = tt

selected_ids-IsExpected : (room : Room) (ids : Wire) → IsExpected (selected_ids room ids)
unfolding selected_ids
selected_ids-IsExpected room null = tt
selected_ids-IsExpected room missing = tt
selected_ids-IsExpected room (array items) = strings-IsExpected items
selected_ids-IsExpected room (string s) = tt
selected_ids-IsExpected room (boolean b) = tt
selected_ids-IsExpected room other = tt

find_all-IsExpected : (players : List Player) (ids : List Text) → IsExpected (find_all players ids)
unfolding find_all
find_all-IsExpected players [] = tt
find_all-IsExpected players (id ∷ ids) =
    IsExpected-elim (find (λ (p : Player). p.id == id) players) invalid_dancer _
      λ p. IsExpected-bind (find_all players ids) _ (find_all-IsExpected players ids) λ _. tt

require_everyone_ready-IsExpected : (room : Room) → IsExpected (require_everyone_ready room)
unfolding require_everyone_ready
require_everyone_ready-IsExpected room =
    IsExpected-check (any (λ (p : Player). not p.ready) room.players) players_not_ready

-- With settings that are accepted at startup, starting a battle in any room with any dancers never
-- fails but by a DomainError.
pub start_battle-IsExpected :
    (number : ReadsNumber) (source : Source) (env : Env) (room : Room) (ids : Wire) (now : ℕ)
    (battle_id : Text)
    → load_env number source ≡ ok env
    → IsExpected (start_battle room ids (battle_timing env now battle_id))
unfolding start_battle require_song
start_battle-IsExpected number source env room ids now battle_id e =
    let c = load_env-IsConfig number source env e in
    IsExpected-bind (finite_ms env.battle_start_countdown_ms) _ (finite_ms-ok _ c.countdown) λ _.
      IsExpected-bind (finite_ms env.word_race_fallback_duration_ms) _
        (positive-finite _ c.fallback_duration)
        λ _. IsExpected-bind (whole_points env.vote_points) _ (whole_points-ok _ c.vote_points) λ _.
          IsExpected-bind (whole_points env.word_bonus_points) _
            (whole_points-ok _ c.word_bonus_points)
            λ _. IsExpected-throw_if (not (is_waiting room.status)) room_not_waiting _ (
              IsExpected-throw_if (is_selection_in_progress room) song_selection_in_progress _ (
                IsExpected-bind (selected_ids room ids) _ (selected_ids-IsExpected room ids)
                  λ wanted. IsExpected-throw_if (has_duplicates wanted) invalid_dancer _ (
                    IsExpected-throw_if (ltb (length wanted) min_dancers_per_battle)
                      not_enough_dancers _
                      (IsExpected-bind (find_all room.players wanted) _
                        (find_all-IsExpected room.players wanted)
                        λ _.
                          IsExpected-bind (require_everyone_ready room) _
                            (require_everyone_ready-IsExpected room)
                            λ _.
                              IsExpected-bind (require_song room) _
                                (IsExpected-elim room.selected_song _ _ λ _. tt) λ _. tt))))
