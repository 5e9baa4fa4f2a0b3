-- ===== src/RoomService/Validity/Starting.antt =====
-- The invariant under startBattle of RoomService.ts.
use mathlib.Core.Path.{ap₂}
use dance_sync_back_end.Base.{
  ◌≤◌, ◌≡◌, refl, sym, ap, subst, ◌∙◌, true, false, not, none, some, inl, inr, Option-cases, List,
  [], ◌∷◌, map, Text, ◌==◌, keys, Distinct, arith, length, length-map, find, ltb, ltb→le, All,
  All-imp, All-zip,
}
use dance_sync_back_end.Errors.{Ensures, Ensures-ok, Ensures-throw_if, Ensures-bind}
use dance_sync_back_end.Model.{
  Room, Player, Battle, battling, is_waiting, Wire, min_dancers_per_battle,
}
use dance_sync_back_end.SongSelectionService.{is_selection_in_progress, require_everyone_ready}
use dance_sync_back_end.RoomService.{has_player, spectators_of}
use dance_sync_back_end.RoomService.Starting.{
  StartBattleOptions, finite_ms, whole_points, selected_ids, has_duplicates, find_all, require_song,
  as_dancer, assign_roles, start_battle,
}
use dance_sync_back_end.RoomService.Players.{ids, ids-map, has_player-map}
use dance_sync_back_end.RoomService.Validity.{
  IsValid, IsRunning, IsCompeting, IsVote, IsSelection-mono,
}

pub no_duplicates : (xs : List Text) → has_duplicates xs ≡ false → Distinct xs
no_duplicates [] h = tt
no_duplicates (x ∷ xs) h = ground (arith, no_duplicates xs)

find-some :
    (players : List Player) (id : Text) (p : Player)
    → find (λ q. q.id == id) players ≡ some p
    → (p.id ≡ id) × (has_player players id ≡ true)
find-some [] id p h = cc
find-some (q ∷ players) id p h = ground (arith, find-some players id p)

-- What is found are players of the room, with the ids asked for.
abbrev Found : List Player → List Text → List Player → Type 0
Found players xs selected = (ids selected ≡ xs) × All (λ id. has_player players id ≡ true) xs

find_all-Found :
    (players : List Player) (xs : List Text) → Ensures (Found players xs) (find_all players xs)
unfolding find_all
find_all-Found players [] = (refl, tt)
find_all-Found players (id ∷ xs) = elim (Option-cases (find (λ q. q.id == id) players)) [
  | inl e ↦ rw (e, find_all) tt
  | inr (p, e) ↦
      rw (e, find_all)
        (Ensures-bind (Found players (id ∷ xs)) (find_all players xs) _ λ rest r.
          let (same, present) =
            Ensures-ok (Found players xs) (find_all players xs) (find_all-Found players xs) r in
          let (head, here) = find-some players id p e in (ap₂ ◌∷◌ head same, (here, present)))
]

has_player_self : (ps : List Player) → All (λ id. has_player ps id ≡ true) (ids ps)
has_player_self [] = tt
has_player_self (p ∷ ps) = (
  ground arith,
  All-imp (λ id. has_player ps id ≡ true) (λ id. has_player (p ∷ ps) id ≡ true)
      (λ id h. ground arith) (ids ps) (has_player_self ps),
)

-- A player with a dancer's id is given the role of a dancer.
dancer_apart :
    (ds ps : List Player) (id : Text)
    → has_player ds id ≡ true
    → has_player (spectators_of (map (assign_roles ds) ps)) id ≡ false
dancer_apart ds [] id h = refl
dancer_apart ds (p ∷ ps) id h = ground (arith, dancer_apart ds ps id h)

assign_roles-id : (ds : List Player) (p : Player) → (assign_roles ds p).id ≡ p.id
assign_roles-id ds p = ground arith

module _ (room : Room) (xs : List Text) (selected : List Player) (v : IsValid room)
    (found : Found room.players xs selected) where
  abbrev line_up : List Player
  line_up = map as_dancer selected

  abbrev seats : List Player
  seats = map (assign_roles line_up) room.players

  line_up-ids : ids line_up ≡ xs
  line_up-ids = ids-map as_dancer (λ p. refl) selected ∙ found.0

  seat_facts :
      (id : Text)
      → (has_player room.players id ≡ true) × (has_player line_up id ≡ true)
      → (has_player seats id ≡ true) × (has_player (spectators_of seats) id ≡ false)
  seat_facts id (here, up) = (
    has_player-map (assign_roles line_up) (assign_roles-id line_up) room.players id ∙ here,
    dancer_apart line_up room.players id up,
  )

  line_up-competing :
      All
        (λ id. (has_player seats id ≡ true) × (has_player (spectators_of seats) id ≡ false))
        (ids line_up)
  line_up-competing =
      All-imp (λ id. (has_player room.players id ≡ true) × (has_player line_up id ≡ true))
        (λ id. (has_player seats id ≡ true) × (has_player (spectators_of seats) id ≡ false))
        seat_facts (ids line_up)
        (All-zip (λ id. has_player room.players id ≡ true) (λ id. has_player line_up id ≡ true)
          (ids line_up)
          (subst (All (λ id. has_player room.players id ≡ true)) (sym line_up-ids) found.1)
          (has_player_self line_up))

  abbrev on_stage : Battle → Room
  on_stage b = record room {
    players = seats;
    dancers = some line_up;
    spectators = spectators_of seats;
    status = battling;
    battle = some b;
  }

  line_up-IsRunning :
      (b : Battle)
      → b.dancer_ids ≡ ids line_up
      → b.votes ≡ []
      → b.result ≡ none
      → Distinct xs
      → min_dancers_per_battle ≤ length xs
      → IsRunning (on_stage b) b
  line_up-IsRunning b same none_yet unsettled single enough =
      let all_xs = same ∙ line_up-ids in
      record {
        distinct = subst Distinct (sym all_xs) single;
        enough = omega (arith, enough, ap length all_xs);
        competing = subst (All (IsCompeting (on_stage b))) (sym same) line_up-competing;
        votes = subst (All (IsVote (on_stage b) b)) (sym none_yet) tt;
        one_each = subst (λ m. Distinct (keys m)) (sym none_yet) tt;
        unsettled = unsettled;
      }

  line_up-IsValid : (b : Battle) → IsRunning (on_stage b) b → IsValid (on_stage b)
  line_up-IsValid b running =
      let f = assign_roles line_up in
      let keeps = assign_roles-id line_up in
      record {
        distinct = subst Distinct (sym (ids-map f keeps room.players)) v.distinct;
        few = omega (arith, v.few, length-map f room.players);
        hosted = has_player-map f keeps room.players room.host_id ∙ v.hosted;
        seated = refl;
        phase = (b, refl, running);
        selection =
            IsSelection-mono room.players seats room.song_selection
              (λ c h. has_player-map f keeps room.players c ∙ h) v.selection;
      }

pub start_battle-IsValid :
    (room : Room) (wanted : Wire) (o : StartBattleOptions)
    → IsValid room
    → Ensures IsValid (start_battle room wanted o)
unfolding start_battle
start_battle-IsValid room wanted o v =
    Ensures-bind IsValid (finite_ms o.countdown_ms) _ λ countdown _.
      Ensures-bind IsValid (finite_ms o.fallback_duration_ms) _ λ fallback _.
        Ensures-bind IsValid (whole_points o.vote_points) _ λ vote_points _.
          Ensures-bind IsValid (whole_points o.word_bonus_points) _ λ word_points _.
            Ensures-throw_if IsValid (not (is_waiting room.status)) _ _ λ open_room.
              Ensures-throw_if IsValid (is_selection_in_progress room) _ _ λ _.
                Ensures-bind IsValid (selected_ids room wanted) _ λ xs _.
                  Ensures-throw_if IsValid (has_duplicates xs) _ _ λ single.
                    Ensures-throw_if IsValid (ltb (length xs) min_dancers_per_battle) _ _ λ enough.
                      Ensures-bind IsValid (find_all room.players xs) _ λ selected e.
                        Ensures-bind IsValid (require_everyone_ready room) _ λ _ _.
                          Ensures-bind IsValid (require_song room) _ λ song _.
                            let found =
                              Ensures-ok (Found room.players xs) (find_all room.players xs)
                                (find_all-Found room.players xs) e in
                            line_up-IsValid room xs selected v found _ (
                              line_up-IsRunning room xs selected v found _ refl refl refl
                                (no_duplicates xs single) (ltb→le _ _ enough))
