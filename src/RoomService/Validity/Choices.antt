-- ===== src/RoomService/Validity/Choices.antt =====
-- The invariant under choose and autoPick of SongSelectionService.ts.
use dance_sync_back_end.Base.{
  ℕ, refl, true, not, ◌||◌, Option, none, some, List, Text, ◌==◌, length, nat_eq,
}
use dance_sync_back_end.Errors.{
  Ensures, Ensures-ok, Ensures-throw_if, Ensures-bind, Ensures-if, Ensures-elim,
}
use dance_sync_back_end.Model.{
  Room, Player, SongSelection, SongSelectionPhase, typing, choosing, done, is_choosing,
}
use dance_sync_back_end.SongSelectionService.{RandomIndex, pick}
use dance_sync_back_end.SongSelectionService.Choices.{
  is_chooser, require_choosing, require_song, choose, mark_auto_picked, overdue_chooser, pick_for,
  auto_pick,
}
use dance_sync_back_end.RoomService.Validity.{IsValid, IsValidIf, IsSelection, ChoicePhase}
use dance_sync_back_end.RoomService.Validity.Selections.{reselect-IsValid}

pub choose-IsValid :
    (room : Room) (id song_id : Text) → IsValid room → Ensures IsValid (choose room id song_id)
unfolding choose
choose-IsValid room id song_id v = Ensures-bind IsValid (require_choosing room) _ λ s _.
    Ensures-throw_if IsValid (not (is_chooser s id)) _ _ λ _.
      Ensures-bind IsValid (require_song s song_id) _
        λ song _. reselect-IsValid room _ (some song) v refl

auto_picked-IsSelection :
    (ps : List Player) (s : Option SongSelection)
    → IsSelection ps s
    → IsSelection ps (elim s [ none ↦ none | some t ↦ some (record t { auto_picked = true }) ])
auto_picked-IsSelection ps none h = tt
auto_picked-IsSelection ps (some s) h = marked s.phase h
  where
    marked :
        (phase : SongSelectionPhase)
        → ChoicePhase ps s phase
        → ChoicePhase ps (record s { auto_picked = true }) phase
    marked typing h = h
    marked choosing h = h
    marked done h = h

mark_auto_picked-IsValid : (room : Room) → IsValid room → IsValid (mark_auto_picked room)
unfolding mark_auto_picked
mark_auto_picked-IsValid room v =
    reselect-IsValid room _ room.selected_song v
      (auto_picked-IsSelection room.players room.song_selection v.selection)

module _ (room : Room) (random : RandomIndex) (v : IsValid room) where
  pick_for-IsValid : (s : SongSelection) (id : Text) → Ensures IsValidIf (pick_for room s id random)
  unfolding pick_for
  pick_for-IsValid s id =
      Ensures-if IsValidIf (nat_eq (length s.song_options) 0) _ _
        (λ _. reselect-IsValid room none room.selected_song v tt)
        λ _. Ensures-bind IsValidIf (pick random s.song_options) _ λ song _.
          Ensures-bind IsValidIf (choose room id song.id) _ λ chosen e.
            mark_auto_picked-IsValid chosen
              (Ensures-ok IsValid (choose room id song.id) (choose-IsValid room id song.id v) e)

  pub auto_pick-IsValid :
      (challenge_id : Text) (now : ℕ) → Ensures IsValidIf (auto_pick room challenge_id now random)
  unfolding auto_pick
  auto_pick-IsValid challenge_id now =
      Ensures-elim IsValidIf room.song_selection _ _ (λ _. tt)
        λ s _.
          Ensures-if IsValidIf (not (is_choosing s.phase) || not (s.challenge.id == challenge_id)) _
            _ (λ _. tt)
            λ _.
              Ensures-elim IsValidIf (overdue_chooser s now) _ _ (λ _. tt)
                λ id _. pick_for-IsValid s id
