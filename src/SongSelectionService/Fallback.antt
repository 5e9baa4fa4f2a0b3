-- ===== src/SongSelectionService/Fallback.antt =====
-- Who gets the choice when nobody won it, or the chooser left: `assignFallbackChooser`.
use dance_sync_back_end.Base.{
  ℕ, zero, suc, ◌+◌, ◌<◌, ◌≡◌, refl, Bool, true, false, not, ◌&&◌, ◌⊎◌, inl, inr, Bool-cases, none,
  some, List, [], ◌∷◌, Text, includes, arith, ltb, nat_eq, length, get_elem?, filter, all,
}
use dance_sync_back_end.Errors.{ok}
use dance_sync_back_end.Model.{Room, SongSelection, ChooserReason, choosing}
use dance_sync_back_end.SongSelectionService.{
  RandomIndex, pick, is_present, fallback_candidates, assign_fallback_chooser,
}

-- An index below the length it is given.
abbrev pub InBounds : RandomIndex → Type 0
InBounds random = (n : ℕ) → 0 < n → random n < n

get_elem?-lt :
    (xs : List Text) (i : ℕ)
    → i < length xs
    → (x : Text) × (get_elem? xs i ≡ some x) × (includes xs x ≡ true)
get_elem?-lt [] i h = absurd (omega arith)
get_elem?-lt (x ∷ xs) zero h = (x, refl, ground arith)
get_elem?-lt (x ∷ xs) (suc i) h =
    let (y, e, m) = get_elem?-lt xs i (omega arith) in (y, e, ground arith)

includes-filter :
    (p : Text → Bool) (xs : List Text) (x : Text)
    → includes (filter p xs) x ≡ (includes xs x && p x)
includes-filter p [] x = refl
includes-filter p (y ∷ ys) x = ground (arith, includes-filter p ys x)

pick-InBounds :
    (random : RandomIndex) (xs : List Text)
    → InBounds random
    → 0 < length xs
    → (x : Text) × (pick random xs ≡ ok x) × (includes xs x ≡ true)
unfolding pick
pick-InBounds random xs h k =
    let (x, e, m) = get_elem?-lt xs (random (length xs)) (h (length xs) k) in
    (x, rw (e, pick) refl, m)

filter_none :
    (p : Text → Bool) (xs : List Text)
    → ltb 0 (length (filter (λ x. not (p x)) xs)) ≡ false
    → all p xs ≡ true
filter_none p [] h = refl
filter_none p (x ∷ xs) h = ground (arith, filter_none p xs)

-- The participants who are still in the room.
abbrev pub present_of : Room → SongSelection → List Text
present_of room selection = filter (is_present room) selection.participant_ids

-- Somebody who took part and is in the room, and who has not misspelled the phrase unless everybody
-- who is left has.
pub record IsFair (room : Room) (selection : SongSelection) (id : Text) : Type 0 where
  pub took_part : includes selection.participant_ids id ≡ true
  pub here : is_present room id ≡ true
  pub unfailed :
      (includes selection.failed_ids id ≡ false)
      ⊎ (all (λ i. includes selection.failed_ids i) (present_of room selection) ≡ true)

abbrev pub unfailed_of : Room → SongSelection → List Text
unfailed_of room selection =
    filter (λ i. not (includes selection.failed_ids i)) (present_of room selection)

candidate-IsFair :
    (room : Room) (selection : SongSelection) (id : Text)
    → includes (fallback_candidates room selection) id ≡ true
    → IsFair room selection id
candidate-IsFair room selection id h =
    elim (Bool-cases (ltb 0 (length (unfailed_of room selection)))) [
      | inl some_left ↦
          let kept : includes (unfailed_of room selection) id ≡ true = ground arith in
          let split =
            includes-filter (λ i. not (includes selection.failed_ids i)) (present_of room selection)
              id in
          let among = includes-filter (is_present room) selection.participant_ids id in
          record {
            took_part = ground (arith, kept, split, among);
            here = ground (arith, kept, split, among);
            unfailed = inl (ground (arith, kept, split));
          }
      | inr none_left ↦
          let kept : includes (present_of room selection) id ≡ true = ground arith in
          let among = includes-filter (is_present room) selection.participant_ids id in
          record {
            took_part = ground (arith, kept, among);
            here = ground (arith, kept, among);
            unfailed = inr (
                filter_none (λ i. includes selection.failed_ids i) (present_of room selection)
                  none_left);
          }
    ]

no_candidates :
    (room : Room) (selection : SongSelection)
    → nat_eq (length (fallback_candidates room selection)) 0 ≡ true
    → length (present_of room selection) ≡ 0
no_candidates room selection h = ground arith

-- The choice is with a player: the options stand, and their time runs anew.
abbrev pub chosen_by : SongSelection → Text → ChooserReason → ℕ → SongSelection
chosen_by selection id reason now = record selection {
  phase = choosing;
  chooser_id = some id;
  chooser_reason = some reason;
  choose_deadline = some (now + selection.choose_ms);
}

-- When the random index is in bounds, the fallback always decides: with no participant left in the
-- room the selection is cancelled, and otherwise the choice goes, from this moment for the time
-- that the selection allows and for the given reason, to a participant in the room who has not
-- misspelled the phrase, or to any participant in the room if all of them have.
pub assign_fallback_chooser-IsFair :
    (room : Room) (selection : SongSelection) (reason : ChooserReason) (random : RandomIndex)
    (now : ℕ)
    → InBounds random
    → ((length (present_of room selection) ≡ 0)
        × (assign_fallback_chooser room selection reason random now
            ≡ ok (record room { song_selection = none })))
      ⊎ ((id : Text) × IsFair room selection id
          × (assign_fallback_chooser room selection reason random now
              ≡ ok (record room { song_selection = some (chosen_by selection id reason now) })))
unfolding assign_fallback_chooser
assign_fallback_chooser-IsFair room selection reason random now h =
    elim (Bool-cases (nat_eq (length (fallback_candidates room selection)) 0)) [
      | inl gone ↦ inl (no_candidates room selection gone, rw (gone, assign_fallback_chooser) refl)
      | inr there ↦
          let (id, picked, m) =
            pick-InBounds random (fallback_candidates room selection) h (ground arith) in
          inr (
            id,
            candidate-IsFair room selection id m,
            rw (there, picked, assign_fallback_chooser) refl,
          )
    ]
