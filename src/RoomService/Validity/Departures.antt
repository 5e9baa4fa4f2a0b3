-- ===== src/RoomService/Validity/Departures.antt =====
-- The invariant under leave and kick of RoomService.ts and handlePlayerLeft of
-- SongSelectionService.ts.
use dance_sync_back_end.Base.{
  ℕ, ◌≡◌, refl, sym, subst, ◌∙◌, true, false, not, ◌||◌, ◌⊎◌, inl, inr, Option, some, List, [],
  Text, ◌==◌, arith, Bool-cases,
}
use dance_sync_back_end.Errors.{
  Ensures, Ensures-ok, Ensures-imp, Ensures-throw_if, Ensures-bind, Ensures-if, Ensures-elim,
}
use dance_sync_back_end.Model.{
  Room, Player, is_waiting, SongSelection, SongSelectionPhase, typing, choosing, done, chooser_left,
  is_choosing, Wire, string,
}
use dance_sync_back_end.SongSelectionService.{RandomIndex}
use dance_sync_back_end.SongSelectionService.Choices.{is_chooser, handle_player_left}
use dance_sync_back_end.RoomService.{has_player}
use dance_sync_back_end.RoomService.Departures.{
  without_player, settle_battle_after_leave, remove_player, leave, kicked_id, kick,
}
use dance_sync_back_end.RoomService.Players.{has_player-without}
use dance_sync_back_end.RoomService.Validity.{IsValid, IsSelection, ChoicePhase, ChoicePhase-mono}
use dance_sync_back_end.RoomService.Validity.Selections.{
  reselect-Phase, Reselects, assign_fallback_chooser-Reselects,
}
use dance_sync_back_end.RoomService.Validity.Withdrawals.{IsSettled, settle-IsSettled}

-- Nobody is left, or the room is in order.
abbrev pub IsLeft : Room → Type 0
IsLeft room = (room.players ≡ []) ⊎ IsValid room

-- Of the others in the room, everybody is still there.
chooser_stays :
    (ps : List Player) (s : SongSelection) (id : Text)
    → is_chooser s id ≡ false
    → ChoicePhase ps s s.phase
    → ChoicePhase (without_player ps id) s s.phase
chooser_stays ps s id other h =
    ChoicePhase-mono ps (without_player ps id) s s.phase
      (λ c e here. ground (arith, has_player-without ps id c)) h

nobody_chooses :
    (ps qs : List Player) (s : SongSelection) (phase : SongSelectionPhase)
    → is_choosing phase ≡ false
    → ChoicePhase ps s phase
    → ChoicePhase qs s phase
nobody_chooses ps qs s typing e h = h
nobody_chooses ps qs s choosing e h = cc
nobody_chooses ps qs s done e h = h

settled-IsLeft :
    (ps : List Player) (sel : Option SongSelection) (r : Room) (next : Option SongSelection)
    → IsSettled ps sel r
    → IsSelection r.players next
    → IsLeft (record r { song_selection = next })
settled-IsLeft ps sel r next h k = elim h.hosted [
  | inl e ↦ inl e
  | inr host ↦ inr (record {
    distinct = h.distinct;
    few = h.few;
    hosted = host;
    seated = h.seated;
    phase = reselect-Phase r next r.selected_song r.status h.phase;
    selection = k;
  })
]

-- What is left after a departure, and who.
abbrev pub IsLeftBy : Room → Text → Room → Type 0
IsLeftBy room id r = IsLeft r × (r.players ≡ without_player room.players id)

module _ (room r : Room) (id : Text) (now : ℕ) (random : RandomIndex) (v : IsValid room)
    (h : IsSettled (without_player room.players id) room.song_selection r) where
  left_with :
      (next : Option SongSelection)
      → IsSelection r.players next
      → IsLeftBy room id (record r { song_selection = next })
  left_with next k =
      (settled-IsLeft (without_player room.players id) room.song_selection r next h k, h.players)

  choice_kept :
      (s : SongSelection)
      → ChoicePhase room.players s s.phase
      → (not (is_choosing s.phase) || not (is_chooser s id)) ≡ true
      → ChoicePhase (without_player room.players id) s s.phase
  choice_kept s k e = elim (Bool-cases (is_choosing s.phase)) [
    | inl c ↦ chooser_stays room.players s id (ground arith) k
    | inr c ↦ nobody_chooses room.players _ s s.phase c k
  ]

  left-IsSelection :
      (s : SongSelection)
      → r.song_selection ≡ some s
      → (not (is_choosing s.phase) || not (is_chooser s id)) ≡ true
      → IsSelection r.players r.song_selection
  left-IsSelection s e stays =
      let sound : ChoicePhase room.players s s.phase =
        subst (IsSelection room.players) (sym h.selected ∙ e) v.selection in
      subst (IsSelection r.players) (sym e)
        (subst (λ ps. ChoicePhase ps s s.phase) (sym h.players) (choice_kept s sound stays))

  handle-IsLeftBy : Ensures (IsLeftBy room id) (handle_player_left r id random now)
  unfolding handle_player_left
  handle-IsLeftBy =
      Ensures-elim (IsLeftBy room id) r.song_selection _ _
        (λ e. left_with r.song_selection (subst (IsSelection r.players) (sym e) tt))
        λ s e.
          Ensures-if (IsLeftBy room id) (not (is_choosing s.phase) || not (is_chooser s id)) _ _
            (λ stays. left_with r.song_selection (left-IsSelection s e stays))
            λ _.
              Ensures-imp (Reselects r s) (IsLeftBy room id) _
                (λ q (sel, made, k). subst (IsLeftBy room id) (sym made) (left_with sel k))
                (assign_fallback_chooser-Reselects r s chooser_left random now)

pub leave-IsLeftBy :
    (room : Room) (id : Text) (now : ℕ) (random : RandomIndex)
    → IsValid room
    → Ensures (IsLeftBy room id) (leave room id now random)
unfolding leave
leave-IsLeftBy room id now random v =
    Ensures-throw_if (IsLeftBy room id) (not (has_player room.players id)) _ _ λ _.
      Ensures-bind (IsLeftBy room id) (settle_battle_after_leave (remove_player room id) id now) _
        λ r e. handle-IsLeftBy room r id now random v (
          Ensures-ok _ (settle_battle_after_leave (remove_player room id) id now)
            (settle-IsSettled room id now v) e)

-- The host who removes somebody else stays.
host_stays :
    (room : Room) (id : Text) (r : Room)
    → IsValid room
    → (id == room.host_id) ≡ false
    → IsLeftBy room id r
    → IsValid r
host_stays room id r v other (inr valid, e) = valid
host_stays room id r v other (inl none_left, e) =
    let gone : has_player (without_player room.players id) room.host_id ≡ false =
      subst (λ l. has_player l room.host_id ≡ false) (sym none_left ∙ e) refl in
    absurd (ground (arith, v.hosted, has_player-without room.players id room.host_id))

kicked_id-other :
    (w : Wire) (requester : Text)
    → Ensures (λ id. (id == requester) ≡ false) (kicked_id w requester)
unfolding kicked_id
kicked_id-other (string id) requester =
    Ensures-throw_if (λ i. (i == requester) ≡ false) (id == requester) _ _ λ h. h
kicked_id-other _ requester = tt

pub kick-IsValid :
    (room : Room) (requester : Text) (w : Wire) (now : ℕ) (random : RandomIndex)
    → IsValid room
    → Ensures IsValid (kick room requester w now random)
unfolding kick
kick-IsValid room requester w now random v =
    Ensures-throw_if IsValid (not (room.host_id == requester)) _ _ λ host.
      Ensures-throw_if IsValid (not (is_waiting room.status)) _ _ λ _.
        Ensures-bind IsValid (kicked_id w requester) _ λ id e.
          Ensures-throw_if IsValid (not (has_player room.players id)) _ _ λ _.
            let other : (id == requester) ≡ false =
              Ensures-ok (λ i. (i == requester) ≡ false) (kicked_id w requester)
                (kicked_id-other w requester) e in
            Ensures-imp (IsLeftBy room id) IsValid (leave room id now random)
              (λ r. host_stays room id r v (ground arith)) (leave-IsLeftBy room id now random v)
