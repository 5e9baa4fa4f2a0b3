-- ===== src/RoomService/Players.antt =====
-- Facts about lists of players and of ids.
use dance_sync_back_end.Base.{
  ◌≡◌, refl, ap, Bool, false, not, ◌&&◌, ◌||◌, List, [], ◌∷◌, ◌++◌, map, Text, ◌==◌, eq→path,
  includes, Distinct, arith, filter, inl, inr, Bool-cases,
}
use dance_sync_back_end.Model.{Player, is_spectator}
use dance_sync_back_end.RoomService.{has_player, spectators_of}
use dance_sync_back_end.RoomService.Departures.{without_player}

abbrev pub ids : List Player → List Text
ids = map (λ p. p.id)

pub has_player-ids : (ps : List Player) (id : Text) → has_player ps id ≡ includes (ids ps) id
has_player-ids [] id = refl
has_player-ids (p ∷ ps) id = ap (λ b. (p.id == id) || b) (has_player-ids ps id)

pub ids-map :
    (f : Player → Player)
    → ((p : Player) → (f p).id ≡ p.id)
    → (ps : List Player) → ids (map f ps) ≡ ids ps
ids-map f h [] = refl
ids-map f h (p ∷ ps) = ground (arith, h p, ids-map f h ps)

pub has_player-map :
    (f : Player → Player)
    → ((p : Player) → (f p).id ≡ p.id)
    → (ps : List Player) (id : Text) → has_player (map f ps) id ≡ has_player ps id
has_player-map f h [] id = refl
has_player-map f h (p ∷ ps) id = ground (arith, h p, has_player-map f h ps id)

pub includes-snoc :
    (xs : List Text) (x y : Text) → includes (xs ++ x ∷ []) y ≡ (includes xs y || (x == y))
includes-snoc [] x y = ground arith
includes-snoc (z ∷ xs) x y = ground (arith, includes-snoc xs x y)

pub Distinct-snoc :
    (xs : List Text) (x : Text) → Distinct xs → includes xs x ≡ false → Distinct (xs ++ x ∷ [])
Distinct-snoc [] x d h = (refl, tt)
Distinct-snoc (y ∷ xs) x d h = ground (arith, Distinct-snoc xs x d.1, includes-snoc xs x y)

pub includes-filter :
    (f : Text → Bool) (xs : List Text) (x : Text)
    → includes (filter f xs) x ≡ (includes xs x && f x)
includes-filter f [] x = refl
includes-filter f (y ∷ xs) x = elim (Bool-cases (y == x)) [
  | inl e ↦ ground (arith, includes-filter f xs x, ap f (eq→path y x e))
  | inr e ↦ ground (arith, includes-filter f xs x)
]

pub Distinct-filter : (f : Text → Bool) (xs : List Text) → Distinct xs → Distinct (filter f xs)
Distinct-filter f [] d = tt
Distinct-filter f (x ∷ xs) d = ground (arith, d.0, includes-filter f xs x, Distinct-filter f xs d.1)

pub ids-without_player :
    (ps : List Player) (id : Text)
    → ids (without_player ps id) ≡ filter (λ x. not (x == id)) (ids ps)
ids-without_player [] id = refl
ids-without_player (p ∷ ps) id = ground (arith, ids-without_player ps id)

pub has_player-without :
    (ps : List Player) (id j : Text)
    → has_player (without_player ps id) j ≡ (has_player ps j && not (j == id))
has_player-without [] id j = refl
has_player-without (p ∷ ps) id j = ground (arith, has_player-without ps id j)

pub spectators_of-without :
    (ps : List Player) (id : Text)
    → spectators_of (without_player ps id) ≡ without_player (spectators_of ps) id
spectators_of-without [] id = refl
spectators_of-without (p ∷ ps) id = ground (arith, spectators_of-without ps id)

pub spectators_of-snoc :
    (ps : List Player) (p : Player)
    → is_spectator p.role ≡ false
    → spectators_of (ps ++ p ∷ []) ≡ spectators_of ps
spectators_of-snoc [] p h = ground arith
spectators_of-snoc (q ∷ ps) p h = ground (arith, spectators_of-snoc ps p)

pub has_player-snoc :
    (ps : List Player) (p : Player) (id : Text)
    → has_player (ps ++ p ∷ []) id ≡ (has_player ps id || (p.id == id))
has_player-snoc [] p id = ground arith
has_player-snoc (q ∷ ps) p id = ground (arith, has_player-snoc ps p id)
