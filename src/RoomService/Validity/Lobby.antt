-- ===== src/RoomService/Validity/Lobby.antt =====
-- The invariant under create, join, selectRole and setReady of RoomService.ts.
use mathlib.Core.List.{map-append}
use dance_sync_back_end.Base.{
  ℕ, ◌≡◌, refl, sym, subst, ◌∙◌, Bool, true, false, not, [], ◌∷◌, ◌++◌, map, Text, Distinct, arith,
  length, length-append, length-map, leb, leb→lt,
}
use dance_sync_back_end.Errors.{Ensures, Ensures-throw_if, Ensures-bind, from_loop}
use dance_sync_back_end.Model.{
  Room, Player, PlayerRole, undecided, is_waiting, Wire, string, max_players,
}
use dance_sync_back_end.Identity.{
  Unicode, Identity, validate_player, validate_player-id, unique_display_name,
}
use dance_sync_back_end.RoomService.{
  has_player, spectators_of, create, join, select_role, set_ready, set_role, mark_ready,
  playable_role, ready_flag,
}
use dance_sync_back_end.RoomService.Players.{
  ids, has_player-ids, ids-map, has_player-map, Distinct-snoc, spectators_of-snoc, has_player-snoc,
}
use dance_sync_back_end.RoomService.Validity.{
  IsValid, waiting-Phase, to_waiting-Phase, IsSelection-mono,
}

pub create-IsValid :
    (host : Identity) (code : Text) (now : ℕ) → Ensures IsValid (create host code now)
unfolding create
create-IsValid host code now =
    Ensures-bind IsValid (validate_player (string host.id) (string host.display_name)) _ λ v e.
      record {
        distinct = (refl, tt);
        few = omega arith;
        hosted = ground arith;
        seated = refl;
        phase = (refl, refl);
        selection = tt;
      }

-- A new player, not in the room before, takes the last place.
seat-IsValid :
    (room : Room) (p : Player)
    → IsValid room
    → is_waiting room.status ≡ true
    → has_player room.players p.id ≡ false
    → leb max_players (length room.players) ≡ false
    → p.role ≡ undecided
    → IsValid (record room { players = room.players ++ p ∷ [] })
seat-IsValid room p v open_room fresh space role = record {
  distinct = subst Distinct (sym (map-append (λ (q : Player). q.id) room.players (p ∷ []))) (
      Distinct-snoc (ids room.players) p.id v.distinct
        (sym (has_player-ids room.players p.id) ∙ fresh));
  few = omega (arith, leb→lt, length-append room.players (p ∷ []));
  hosted = ground (arith, v.hosted, has_player-snoc room.players p room.host_id);
  seated = v.seated ∙ sym (spectators_of-snoc room.players p (ground arith));
  phase =
      to_waiting-Phase _ room.status open_room (waiting-Phase room room.status open_room v.phase);
  selection =
      IsSelection-mono room.players _ room.song_selection
        (λ c h. ground (arith, has_player-snoc room.players p c)) v.selection;
}

pub join-IsValid :
    (u : Unicode) (room : Room) (player : Identity)
    → IsValid room
    → Ensures IsValid (join u room player)
unfolding join
join-IsValid u room player v =
    Ensures-throw_if IsValid (not (is_waiting room.status)) _ _ λ open_room.
      Ensures-throw_if IsValid (has_player room.players player.id) _ _ λ fresh.
        Ensures-throw_if IsValid (leb max_players (length room.players)) _ _ λ space.
          Ensures-bind IsValid (validate_player (string player.id) (string player.display_name)) _
            λ valid e.
              Ensures-bind IsValid
                (from_loop (unique_display_name u room.players valid.display_name)) _
                λ name _.
                  seat-IsValid room _ v (ground arith)
                    (ground
                      (arith, validate_player-id player.id (string player.display_name) valid))
                    space refl

-- A change of the players one by one, in the lobby, that keeps their ids.
relist-IsValid :
    (room : Room) (f : Player → Player)
    → ((p : Player) → (f p).id ≡ p.id)
    → IsValid room
    → is_waiting room.status ≡ true
    → IsValid (record room {
      players = map f room.players;
      spectators = spectators_of (map f room.players);
    })
relist-IsValid room f keeps v open_room = record {
  distinct = subst Distinct (sym (ids-map f keeps room.players)) v.distinct;
  few = omega (arith, v.few, length-map f room.players);
  hosted = has_player-map f keeps room.players room.host_id ∙ v.hosted;
  seated = refl;
  phase =
      to_waiting-Phase _ room.status open_room (waiting-Phase room room.status open_room v.phase);
  selection =
      IsSelection-mono room.players (map f room.players) room.song_selection
        (λ c h. has_player-map f keeps room.players c ∙ h) v.selection;
}

set_role-id : (id : Text) (role : PlayerRole) (p : Player) → (set_role id role p).id ≡ p.id
set_role-id id role p = ground arith

mark_ready-id : (id : Text) (ready : Bool) (p : Player) → (mark_ready id ready p).id ≡ p.id
mark_ready-id id ready p = ground arith

pub select_role-IsValid :
    (room : Room) (id : Text) (wanted : Wire)
    → IsValid room
    → Ensures IsValid (select_role room id wanted)
unfolding select_role
select_role-IsValid room id wanted v = Ensures-bind IsValid (playable_role wanted) _ λ role _.
    Ensures-throw_if IsValid (not (is_waiting room.status)) _ _ λ open_room.
      Ensures-throw_if IsValid (not (has_player room.players id)) _ _
        λ _. relist-IsValid room (set_role id role) (set_role-id id role) v (ground arith)

pub set_ready-IsValid :
    (room : Room) (id : Text) (wanted : Wire)
    → IsValid room
    → Ensures IsValid (set_ready room id wanted)
unfolding set_ready
set_ready-IsValid room id wanted v = Ensures-bind IsValid (ready_flag wanted) _ λ ready _.
    Ensures-throw_if IsValid (not (is_waiting room.status)) _ _ λ open_room.
      Ensures-throw_if IsValid (not (has_player room.players id)) _ _
        λ _. relist-IsValid room (mark_ready id ready) (mark_ready-id id ready) v (ground arith)
