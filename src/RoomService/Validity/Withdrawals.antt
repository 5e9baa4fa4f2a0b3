-- ===== src/RoomService/Validity/Withdrawals.antt =====
-- The invariant under settleBattleAfterLeave of RoomService.ts.
use dance_sync_back_end.Base.{
  ℕ, ◌≤◌, ◌≡◌, refl, sym, ap, subst, ◌∙◌, true, false, not, ◌⊎◌, inl, inr, Option, none, some, List,
  [], ◌∷◌, Text, ◌==◌, Distinct, Distinct-keys-filter, arith, length, length-filter-le, ltb, ltb→le,
  All-filter_imp,
}
use dance_sync_back_end.Errors.{Ensures, Ensures-bind, Ensures-if, Ensures-elim}
use dance_sync_back_end.Model.{
  Room, Player, Battle, RoomStatus, waiting, battling, finished, is_battling, SongSelection,
  not_enough_dancers_left, min_dancers_per_battle, max_players,
}
use dance_sync_back_end.RoomService.{has_player, spectators_of}
use dance_sync_back_end.RoomService.Battles.{running_battle, finish_battle}
use dance_sync_back_end.RoomService.Departures.{
  without_player, withdraw, settle_battle_after_leave, remove_player, first_id,
}
use dance_sync_back_end.RoomService.Players.{
  ids, ids-without_player, has_player-without, spectators_of-without, Distinct-filter,
  includes-filter,
}
use dance_sync_back_end.RoomService.Validity.{
  IsValid, IsRunning, IsCompeting, IsVote, Phase, to_battling-Phase, battling-Phase,
}

-- Everything but the selection, which may name the player who left.
pub record IsSettled (ps : List Player) (selection : Option SongSelection) (room : Room)
    : Type 0 where
  pub players : room.players ≡ ps
  pub selected : room.song_selection ≡ selection
  pub distinct : Distinct (ids room.players)
  pub few : length room.players ≤ max_players
  pub hosted : (room.players ≡ []) ⊎ (has_player room.players room.host_id ≡ true)
  pub seated : room.spectators ≡ spectators_of room.players
  pub phase : Phase room room.status

withdraw-IsRunning :
    (room r : Room) (b : Battle) (id : Text)
    → IsRunning room b
    → r.players ≡ without_player room.players id
    → r.spectators ≡ without_player room.spectators id
    → ltb (length (withdraw b id).dancer_ids) min_dancers_per_battle ≡ false
    → IsRunning r (withdraw b id)
withdraw-IsRunning room r b id h ps ss many = record {
  distinct = Distinct-filter _ b.dancer_ids h.distinct;
  enough = ltb→le _ _ many;
  competing =
      All-filter_imp (IsCompeting room) (IsCompeting r) _
        (λ d kept here. ground (
          arith,
          ps,
          ss,
          here.0,
          here.1,
          has_player-without room.players id d,
          has_player-without room.spectators id d,
        ))
        b.dancer_ids h.competing;
  votes =
      All-filter_imp (IsVote room b) (IsVote r (withdraw b id)) _
        (λ v kept here. ground (
          arith,
          ss,
          here.0,
          here.1,
          has_player-without room.spectators id v.0,
          includes-filter (λ d. not (d == id)) b.dancer_ids v.1,
        ))
        b.votes h.votes;
  one_each = Distinct-keys-filter _ b.votes h.one_each;
  unsettled = h.unsettled;
}

first-hosts :
    (ps : List Player) (host : Text) → (ps ≡ []) ⊎ (has_player ps (first_id ps host) ≡ true)
unfolding first_id
first-hosts [] host = inl refl
first-hosts (p ∷ ps) host = inr (ground arith)

remove_player-hosted :
    (room : Room) (id : Text)
    → has_player room.players room.host_id ≡ true
    → ((remove_player room id).players ≡ [])
      ⊎ (has_player (remove_player room id).players (remove_player room id).host_id ≡ true)
unfolding remove_player
remove_player-hosted room id h = ground (
  arith,
  h,
  has_player-without room.players id room.host_id,
  first-hosts (without_player room.players id) room.host_id,
)

module _ (room : Room) (id : Text) (now : ℕ) (v : IsValid room) where
  abbrev Settled : Room → Type 0
  Settled = IsSettled (without_player room.players id) room.song_selection

  departed-IsSettled :
      (r : Room)
      → r.players ≡ without_player room.players id
      → r.spectators ≡ without_player room.spectators id
      → r.host_id ≡ (remove_player room id).host_id
      → r.song_selection ≡ room.song_selection
      → Phase r r.status
      → Settled r
  unfolding remove_player
  departed-IsSettled r ps ss host same phase = record {
    players = ps;
    selected = same;
    distinct =
        subst Distinct (sym (ap ids ps ∙ ids-without_player room.players id))
          (Distinct-filter _ (ids room.players) v.distinct);
    few = omega (
      arith,
      v.few,
      ap length ps,
      length-filter-le (λ (p : Player). not (p.id == id)) room.players,
    );
    hosted =
        subst (λ l. (l ≡ []) ⊎ (has_player l r.host_id ≡ true)) (sym ps)
          (subst
            (λ h.
              (without_player room.players id ≡ [])
              ⊎ (has_player (without_player room.players id) h ≡ true))
            (sym host) (remove_player-hosted room id v.hosted));
    seated =
        ss
        ∙ ap (λ l. without_player l id) v.seated
        ∙ sym (spectators_of-without room.players id)
        ∙ ap spectators_of (sym ps);
    phase = phase;
  }

  removed-Phase :
      (s : RoomStatus) → is_battling s ≡ false → Phase room s → Phase (remove_player room id) s
  unfolding remove_player
  removed-Phase waiting h p = (p.0, ground arith)
  removed-Phase battling h p = cc
  removed-Phase finished h p = p

  no_battle_idle : (s : RoomStatus) → room.battle ≡ none → Phase room s → is_battling s ≡ false
  no_battle_idle waiting e p = refl
  no_battle_idle battling e (b, f, r) = cc
  no_battle_idle finished e p = refl

  idle-IsSettled : is_battling room.status ≡ false → Settled (remove_player room id)
  unfolding remove_player
  idle-IsSettled idle =
      departed-IsSettled (remove_player room id) refl refl refl refl
        (removed-Phase room.status idle v.phase)

  continuing-IsSettled :
      (b : Battle)
      → room.battle ≡ some b
      → is_battling room.status ≡ true
      → ltb (length (withdraw b id).dancer_ids) min_dancers_per_battle ≡ false
      → Settled (record (remove_player room id) { battle = some (withdraw b id) })
  unfolding remove_player
  continuing-IsSettled b e s many =
      let r = record (remove_player room id) { battle = some (withdraw b id) } in
      departed-IsSettled r refl refl refl refl (
        to_battling-Phase r room.status (withdraw b id) s refl (
          withdraw-IsRunning room r b id (battling-Phase room room.status b s e v.phase) refl refl
            many))

  ended-IsSettled :
      (b : Battle)
      → Ensures Settled (
          finish_battle
            (record (remove_player room id) { battle = some (withdraw b id) })
            not_enough_dancers_left
            now)
  unfolding remove_player finish_battle
  ended-IsSettled b =
      Ensures-bind Settled
        (running_battle (record (remove_player room id) { battle = some (withdraw b id) })) _
        λ c _. departed-IsSettled _ refl refl refl refl (_, _, refl, refl, refl)

  pub settle-IsSettled : Ensures Settled (settle_battle_after_leave (remove_player room id) id now)
  unfolding settle_battle_after_leave remove_player
  settle-IsSettled =
      Ensures-elim Settled room.battle _ _
        (λ e. idle-IsSettled (no_battle_idle room.status e v.phase))
        λ b e.
          Ensures-if Settled (not (is_battling room.status)) _ _
            (λ idle. idle-IsSettled (ground arith))
            λ busy.
              Ensures-if Settled (ltb (length (withdraw b id).dancer_ids) min_dancers_per_battle) _
                _ (λ _. ended-IsSettled b) (continuing-IsSettled b e (ground arith))
