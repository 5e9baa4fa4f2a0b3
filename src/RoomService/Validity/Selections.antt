-- ===== src/RoomService/Validity/Selections.antt =====
-- The invariant under start, submit and expire of SongSelectionService.ts.
use dance_sync_back_end.Base.{
  ℕ, zero, suc, ◌≡◌, refl, sym, subst, Bool, true, false, not, ◌||◌, Option, none, some, List, [],
  ◌∷◌, Text, ◌==◌, includes, arith, length, get_elem?, filter, nat_eq, ltb, leb, All, All-imp,
  All-zip, All-filter, if◌then◌else◌,
}
use dance_sync_back_end.Errors.{
  Result, ok, err, range_error, Ensures, Ensures-ok, Ensures-imp, Ensures-throw_if, Ensures-bind,
  Ensures-if, Ensures-elim, ◌>>=◌,
}
use dance_sync_back_end.Model.{
  Room, RoomStatus, waiting, battling, finished, min_dancers_per_battle, Player, Song,
  SongSelection, SongSelectionPhase, ChooserReason, typing, choosing, done, timeout, all_failed,
  is_waiting, is_typing,
}
use dance_sync_back_end.Identity.{Unicode, normalize_attempt}
use dance_sync_back_end.SongSelectionService.Attempts.{
  add_failed, everyone_failed, judge_attempt, submit, expire, some_room,
}
use dance_sync_back_end.SongSelectionService.{
  SubmitOutcome, incorrect, expired, start, StartChallengeOptions, positive_ms, phrase_pool,
  dancer_ids_of, is_selection_in_progress, require_everyone_ready, require_typing, RandomIndex,
  pick, is_present, hand_choice, fallback_candidates, assign_fallback_chooser,
}
use dance_sync_back_end.RoomService.{has_player}
use dance_sync_back_end.RoomService.Validity.{IsValid, IsValidIf, Phase, IsSelection, ChoicePhase}

pub pick-All {ℓ} :
    {A : Type ℓ} (P : A → Type ℓ) (random : RandomIndex) (xs : List A)
    → All P xs
    → Ensures P (pick random xs)
unfolding pick
pick-All P random xs h = at (random (length xs)) xs h
  where
    at :
        (i : ℕ) (ys : List _)
        → All P ys
        → Ensures P (elim (get_elem? ys i) [ none ↦ err range_error | some a ↦ ok a ])
    at i [] k = tt
    at zero (y ∷ ys) k = k.0
    at (suc i) (y ∷ ys) k = at i ys k.1

All-includes : (xs : List Text) → All (λ x. includes xs x ≡ true) xs
All-includes [] = tt
All-includes (x ∷ xs) = (
  ground arith,
  All-imp (λ y. includes xs y ≡ true) (λ y. includes (x ∷ xs) y ≡ true) (λ y h. ground arith) xs
      (All-includes xs),
)

All-passed : (p : Text → Bool) (xs : List Text) → All (λ x. p x ≡ true) (filter p xs)
All-passed p [] = tt
All-passed p (x ∷ xs) = ground (arith, All-passed p xs)

-- A participant of the challenge who is in the room.
abbrev pub IsPresentParticipant : Room → SongSelection → Text → Type 0
IsPresentParticipant room s id =
    (includes s.participant_ids id ≡ true) × (has_player room.players id ≡ true)

All-if {ℓ κ} :
    {A : Type ℓ} (P : A → Type κ) (b : Bool) (xs ys : List A)
    → All P xs
    → All P ys
    → All P (if b then xs else ys)
All-if P true xs ys h k = h
All-if P false xs ys h k = k

module _ (room : Room) (s : SongSelection) where
  present-participants :
      All (IsPresentParticipant room s) (filter (is_present room) s.participant_ids)
  present-participants =
      All-zip (λ id. includes s.participant_ids id ≡ true) (λ id. has_player room.players id ≡ true)
        (filter (is_present room) s.participant_ids)
        (All-filter (λ id. includes s.participant_ids id ≡ true) (is_present room) s.participant_ids
          (All-includes s.participant_ids))
        (All-passed (is_present room) s.participant_ids)

  pub fallback_candidates-present : All (IsPresentParticipant room s) (fallback_candidates room s)
  fallback_candidates-present =
      All-if (IsPresentParticipant room s) _ _ _
        (All-filter (IsPresentParticipant room s) _ _ present-participants) present-participants

  -- The room with another selection, which is in order.
  abbrev pub Reselects : Room → Type 0
  Reselects r =
      (sel : Option SongSelection) × (r ≡ record room { song_selection = sel })
      × IsSelection room.players sel

  pub assign_fallback_chooser-Reselects :
      (reason : ChooserReason) (random : RandomIndex) (now : ℕ)
      → Ensures Reselects (assign_fallback_chooser room s reason random now)
  unfolding assign_fallback_chooser
  assign_fallback_chooser-Reselects reason random now =
      Ensures-if Reselects (nat_eq (length (fallback_candidates room s)) 0)
        (ok (record room { song_selection = none })) _ (λ _. (none, refl, tt))
        λ _. Ensures-bind Reselects (pick random (fallback_candidates room s)) _ λ c e.
          let h =
            Ensures-ok (IsPresentParticipant room s) (pick random (fallback_candidates room s))
              (pick-All (IsPresentParticipant room s) random (fallback_candidates room s)
                fallback_candidates-present)
              e in
          (some (hand_choice s c reason now), refl, (c, refl, h.0, h.1, refl))

pub reselect-Phase :
    (room : Room) (sel : Option SongSelection) (song : Option Song) (s : RoomStatus)
    → Phase room s
    → Phase (record room { song_selection = sel; selected_song = song }) s
reselect-Phase room sel song waiting h = h
reselect-Phase room sel song battling (b, e, r) = (
  b,
  e,
  record {
    distinct = r.distinct;
    enough = r.enough;
    competing = r.competing;
    votes = r.votes;
    one_each = r.one_each;
    unsettled = r.unsettled;
  },
)
reselect-Phase room sel song finished h = h

-- Another selection in a room in order.
pub reselect-IsValid :
    (room : Room) (sel : Option SongSelection) (song : Option Song)
    → IsValid room
    → IsSelection room.players sel
    → IsValid (record room { song_selection = sel; selected_song = song })
reselect-IsValid room sel song v h = record {
  distinct = v.distinct;
  few = v.few;
  hosted = v.hosted;
  seated = v.seated;
  phase = reselect-Phase room sel song room.status v.phase;
  selection = h;
}

pub Reselects-IsValid :
    (room : Room) (s : SongSelection) (r : Room) → IsValid room → Reselects room s r → IsValid r
Reselects-IsValid room s r v (sel, e, h) =
    subst IsValid (sym e) (reselect-IsValid room sel room.selected_song v h)

pub start-IsValid :
    (room : Room) (o : StartChallengeOptions) → IsValid room → Ensures IsValid (start room o)
unfolding start
start-IsValid room o v = Ensures-bind IsValid (positive_ms o.choose_ms) _ λ choose_ms _.
    Ensures-throw_if IsValid (not (is_waiting room.status)) _ _ λ _.
      Ensures-throw_if IsValid (is_selection_in_progress room) _ _ λ _.
        Ensures-throw_if IsValid (ltb (length (dancer_ids_of room.players)) min_dancers_per_battle)
          _ _
          λ _. Ensures-bind IsValid (require_everyone_ready room) _ λ _ _.
            Ensures-bind IsValid (pick o.random (phrase_pool o.phrases room.song_selection)) _
              λ phrase _. reselect-IsValid room _ none v (refl, refl)

require_typing-ok :
    (room : Room) (s : SongSelection)
    → require_typing room ≡ ok s
    → (room.song_selection ≡ some s) × (is_typing s.phase ≡ true)
unfolding require_typing
require_typing-ok room s e = ground arith

add_failed-ChoicePhase :
    (ps : List Player) (s : SongSelection) (id : Text) (phase : SongSelectionPhase)
    → ChoicePhase ps s phase
    → ChoicePhase ps (add_failed s id) phase
add_failed-ChoicePhase ps s id typing h = h
add_failed-ChoicePhase ps s id choosing h = h
add_failed-ChoicePhase ps s id done h = h

some_room-IsValid : (m : Result Room) → Ensures IsValid m → Ensures IsValidIf (some_room m)
some_room-IsValid (ok r) h = h
some_room-IsValid (err e) h = tt

abbrev pub IsValidRoom {ℓ} : {A : Type ℓ} → Room × A → Type 0
IsValidRoom (room, _) = IsValid room

module _ (u : Unicode) (room : Room) (v : IsValid room) (random : RandomIndex) (now : ℕ) where
  fallback-IsValid :
      (s : SongSelection) (reason : ChooserReason)
      → Ensures IsValid (assign_fallback_chooser room s reason random now)
  fallback-IsValid s reason =
      Ensures-imp (Reselects room s) IsValid (assign_fallback_chooser room s reason random now)
        (λ r. Reselects-IsValid room s r v)
        (assign_fallback_chooser-Reselects room s reason random now)

  -- A room that is paired with an outcome.
  paired-IsValid :
      (m : Result Room) (outcome : SubmitOutcome)
      → Ensures IsValid m
      → Ensures (IsValidRoom {A = SubmitOutcome}) (m >>= λ r. ok (r, outcome))
  paired-IsValid (ok r) outcome h = h
  paired-IsValid (err e) outcome h = tt

  selection_in_order :
      (s : SongSelection) → room.song_selection ≡ some s → ChoicePhase room.players s s.phase
  selection_in_order s e = subst (IsSelection room.players) e v.selection

  judge-IsValid :
      (s : SongSelection) (id attempt : Text)
      → room.song_selection ≡ some s
      → includes s.participant_ids id ≡ true
      → is_present room id ≡ true
      → Ensures (IsValidRoom {A = SubmitOutcome}) (judge_attempt u room s id attempt now random)
  unfolding judge_attempt
  judge-IsValid s id attempt e member here =
      Ensures-if IsValidRoom (normalize_attempt u attempt == s.challenge.phrase) _ _
        (λ _. reselect-IsValid room _ room.selected_song v (id, refl, member, here, refl))
        λ _.
          Ensures-if IsValidRoom (everyone_failed room (add_failed s id)) _ _
            (λ _. paired-IsValid _ incorrect (fallback-IsValid (add_failed s id) all_failed))
            λ _.
              reselect-IsValid room (some (add_failed s id)) room.selected_song v
                (add_failed-ChoicePhase room.players s id s.phase (selection_in_order s e))

  pub submit-IsValid :
      (id attempt : Text)
      → Ensures (IsValidRoom {A = SubmitOutcome}) (submit u room id attempt now random)
  unfolding submit
  submit-IsValid id attempt = Ensures-bind IsValidRoom (require_typing room) _ λ s e.
      Ensures-throw_if IsValidRoom (not (includes s.participant_ids id)) _ _ λ member.
        Ensures-throw_if IsValidRoom (not (is_present room id)) _ _ λ here.
          Ensures-if IsValidRoom (leb s.challenge.expires_at now) _ _
            (λ _. paired-IsValid _ expired (fallback-IsValid s timeout))
            λ _. Ensures-throw_if IsValidRoom (includes s.failed_ids id) _ _ λ _.
              judge-IsValid s id attempt (require_typing-ok room s e).0 (ground arith)
                (ground arith)

  pub expire-IsValid :
      (challenge_id : Text) → Ensures IsValidIf (expire room challenge_id random now)
  unfolding expire
  expire-IsValid challenge_id =
      Ensures-elim IsValidIf room.song_selection _ _ (λ _. tt)
        λ s _.
          Ensures-if IsValidIf (not (is_typing s.phase) || not (s.challenge.id == challenge_id)) _ _
            (λ _. tt) λ _. some_room-IsValid _ (fallback-IsValid s timeout)
