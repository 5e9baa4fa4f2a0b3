-- ===== src/UseCases/Requests/Changes.antt =====
-- The invariant of a room under what each command of application/usecases does to it.
use dance_sync_back_end.Base.{
  ℕ, Bool, not, Option, none, some, inl, inr, length, nat_eq, is_some, Text, ◌==◌, arith,
}
use dance_sync_back_end.Errors.{
  Result, ok, err, domain_error, range_error, plain_error, out_of_fuel, Ensures, Ensures-ok,
  Ensures-throw_if, Ensures-bind, Ensures-if, Ensures-elim, ◌>>=◌,
}
use dance_sync_back_end.Model.{Room, missing}
use dance_sync_back_end.Identity.{Unicode, Identity}
use dance_sync_back_end.SongSelectionService.{RandomIndex}
use dance_sync_back_end.SongSelectionService.Attempts.{submit}
use dance_sync_back_end.SongSelectionService.Choices.{choose, auto_pick}
use dance_sync_back_end.RoomService.{has_player}
use dance_sync_back_end.RoomService.Starting.{StartBattleOptions}
use dance_sync_back_end.RoomService.Battles.{finish_at_deadline}
use dance_sync_back_end.RoomService.Battles
use dance_sync_back_end.RoomService.Departures.{leave}
use dance_sync_back_end.RoomService.Validity.{IsValid, IsValidIf}
use dance_sync_back_end.RoomService.Validity.Lobby.{join-IsValid}
use dance_sync_back_end.RoomService.Validity.Starting.{start_battle-IsValid}
use dance_sync_back_end.RoomService.Validity.Selections.{IsValidRoom, submit-IsValid}
use dance_sync_back_end.RoomService.Validity.Choices.{choose-IsValid, auto_pick-IsValid}
use dance_sync_back_end.RoomService.Validity.Battles.{finish_at_deadline-IsValid, rematch-IsValid}
use dance_sync_back_end.RoomService.Validity.Departures.{IsLeft, leave-IsLeftBy}
use dance_sync_back_end.RoomRepository.{Change, write}
use dance_sync_back_end.RoomRepository.Stored.{KeepsValid}
use dance_sync_back_end.UseCases.{written, write_if, store_or_delete, join_change, leave_change}
use dance_sync_back_end.UseCases.Commands.{
  start_if_possible, started_or, hosted_by, deadline_change, choose_change, picked_change,
  auto_pick_change, rematch_change, submit_change, delete_if_empty_change,
}

pub written-KeepsValid : (m : Result Room) → Ensures IsValid m → Ensures KeepsValid (written m)
written-KeepsValid (ok room) h = h
written-KeepsValid (err e) h = tt

pub write_if-KeepsValid : (o : Option Room) → IsValidIf o → KeepsValid (write_if o)
write_if-KeepsValid none h = tt
write_if-KeepsValid (some room) h = h

abbrev pub KeepsValidBy {ℓ} : {B : Type ℓ} → Change × B → Type 0
KeepsValidBy (change, _) = KeepsValid change

pub store_or_delete-KeepsValid : (room : Room) → IsLeft room → KeepsValid (store_or_delete room)
store_or_delete-KeepsValid room (inl e) = ground arith
store_or_delete-KeepsValid room (inr v) = ground arith

pub leave_change-KeepsValid :
    (id : Text) (now : ℕ) (random : RandomIndex) (room : Room)
    → IsValid room
    → Ensures KeepsValidBy (leave_change id now random room)
leave_change-KeepsValid id now random room v =
    Ensures-bind KeepsValidBy (leave room id now random) _ λ r e.
      store_or_delete-KeepsValid r
        (Ensures-ok _ (leave room id now random) (leave-IsLeftBy room id now random v) e).0

abbrev StaysValid : Room × Bool → Type 0
StaysValid (room, _) = IsValid room

started_or-IsValid :
    (chosen : Room) (m : Result Room)
    → IsValid chosen
    → Ensures IsValid m
    → Ensures StaysValid (started_or chosen m)
unfolding started_or
started_or-IsValid chosen (ok room) v h = h
started_or-IsValid chosen (err (domain_error code)) v h = v
started_or-IsValid chosen (err range_error) v h = tt
started_or-IsValid chosen (err plain_error) v h = tt
started_or-IsValid chosen (err out_of_fuel) v h = tt

start_if_possible-IsValid :
    (chosen : Room) (o : StartBattleOptions)
    → IsValid chosen
    → Ensures StaysValid (start_if_possible chosen o)
unfolding start_if_possible
start_if_possible-IsValid chosen o v =
    Ensures-if StaysValid (is_some chosen.song_selection) _ _
      (λ _. started_or-IsValid chosen _ v (start_battle-IsValid chosen missing o v)) (λ _. v)

module _ (room : Room) (v : IsValid room) where
  pub host_change-KeepsValid :
      (requester : Text) (next : Result Room)
      → Ensures IsValid next
      → Ensures KeepsValid (hosted_by room requester next)
  host_change-KeepsValid requester next h =
      Ensures-throw_if KeepsValid (not (room.host_id == requester)) _ _
        λ _. written-KeepsValid next h

  -- A change that may leave the room as it is, with its flag.
  pub flagged-KeepsValid :
      (m : Result (Option Room))
      → Ensures IsValidIf m
      → Ensures KeepsValidBy (do next ← m; ok (write_if next, is_some next))
  flagged-KeepsValid (ok next) h = write_if-KeepsValid next h
  flagged-KeepsValid (err e) h = tt

  pub deadline_change-KeepsValid :
      (battle_id : Text) (now : ℕ) → Ensures KeepsValidBy (deadline_change battle_id now room)
  deadline_change-KeepsValid battle_id now =
      Ensures-elim KeepsValidBy room.battle _ _ (λ _. tt)
        λ b _.
          Ensures-if KeepsValidBy (b.id == battle_id) _ _
            (λ _. flagged-KeepsValid _ (finish_at_deadline-IsValid room now v)) (λ _. tt)

  pub started-KeepsValid :
      (chosen : Room) (o : StartBattleOptions)
      → IsValid chosen
      → Ensures KeepsValidBy
          (do (next, started) ← start_if_possible chosen o; ok (write next, started))
  started-KeepsValid chosen o h = Ensures-bind KeepsValidBy (start_if_possible chosen o) _ λ p e.
      Ensures-ok StaysValid (start_if_possible chosen o) (start_if_possible-IsValid chosen o h) e

  pub choose_change-KeepsValid :
      (id song_id : Text) (o : StartBattleOptions)
      → Ensures KeepsValidBy (choose_change id song_id o room)
  choose_change-KeepsValid id song_id o =
      Ensures-bind KeepsValidBy (choose room id song_id) _ λ chosen e.
        started-KeepsValid chosen o
          (Ensures-ok IsValid (choose room id song_id) (choose-IsValid room id song_id v) e)

  pub picked_change-KeepsValid :
      (picked : Option Room) (o : StartBattleOptions)
      → IsValidIf picked
      → Ensures KeepsValidBy (picked_change picked o)
  picked_change-KeepsValid none o h = tt
  picked_change-KeepsValid (some chosen) o h =
      Ensures-bind KeepsValidBy (start_if_possible chosen o) _ λ p e.
        Ensures-ok StaysValid (start_if_possible chosen o) (start_if_possible-IsValid chosen o h) e

  pub auto_pick_change-KeepsValid :
      (challenge_id : Text) (random : RandomIndex) (o : StartBattleOptions)
      → Ensures KeepsValidBy (auto_pick_change challenge_id random o room)
  auto_pick_change-KeepsValid challenge_id random o =
      Ensures-bind KeepsValidBy (auto_pick room challenge_id o.now random) _ λ picked e.
        picked_change-KeepsValid picked o (
          Ensures-ok IsValidIf (auto_pick room challenge_id o.now random)
            (auto_pick-IsValid room random v challenge_id o.now) e)

  pub rematch_change-KeepsValid :
      (requester : Text) → Ensures KeepsValidBy (rematch_change requester room)
  rematch_change-KeepsValid requester =
      Ensures-bind KeepsValidBy (Battles.rematch room requester) _ λ next e.
        Ensures-ok IsValid (Battles.rematch room requester) (rematch-IsValid room requester v) e

  pub delete_if_empty-KeepsValid : Ensures KeepsValid (delete_if_empty_change room)
  delete_if_empty-KeepsValid =
      Ensures-if KeepsValid (nat_eq (length room.players) 0) _ _ (λ _. tt) (λ _. tt)

  pub join_change-KeepsValid :
      (u : Unicode) (player : Identity) → Ensures KeepsValid (join_change u player room)
  join_change-KeepsValid u player =
      Ensures-if KeepsValid (has_player room.players player.id) _ _ (λ _. tt)
        (λ _. written-KeepsValid _ (join-IsValid u room player v))

  pub submit_change-KeepsValid :
      (u : Unicode) (id attempt : Text) (now : ℕ) (random : RandomIndex)
      → Ensures KeepsValidBy (submit_change u id attempt now random room)
  submit_change-KeepsValid u id attempt now random =
      Ensures-bind KeepsValidBy (submit u room id attempt now random) _ λ p e.
        Ensures-ok IsValidRoom (submit u room id attempt now random)
          (submit-IsValid u room v random now id attempt) e
