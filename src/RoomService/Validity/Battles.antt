-- ===== src/RoomService/Validity/Battles.antt =====
-- The invariant under castVote, awardWordBonus, finishBattle and rematch of RoomService.ts.
use dance_sync_back_end.Base.{
  ℕ, ◌≡◌, refl, sym, subst, ◌∙◌, Bool, true, false, not, ◌||◌, Option, none, some, Text, ◌==◌,
  includes, keys, Distinct, Distinct-insert, Distinct-remove, All-insert, All-remove, arith,
  length-map, leb, ltb, All, if◌then◌else◌,
}
use dance_sync_back_end.Errors.{
  ok, Ensures, Ensures-ok, Ensures-throw_if, Ensures-bind, Ensures-if, Ensures-elim,
}
use dance_sync_back_end.Model.{
  Room, Battle, BattleEndReason, song_end, is_battling, is_finished, Wire, string,
}
use dance_sync_back_end.RoomService.{has_player}
use dance_sync_back_end.RoomService.Battles.{
  running_battle, award_word_bonus, wanted_dancer, set_vote, open_battle, cast_vote, finish_battle,
  finish_at_deadline, not_ready, rematch,
}
use dance_sync_back_end.RoomService.Players.{ids-map, has_player-map}
use dance_sync_back_end.RoomService.Validity.{
  IsValid, IsValidIf, IsRunning, IsVote, battling-Phase, to_battling-Phase,
}

pub running_battle-ok :
    (room : Room) (b : Battle)
    → running_battle room ≡ ok b
    → (room.battle ≡ some b) × (is_battling room.status ≡ true)
unfolding running_battle
running_battle-ok room b e = ground arith

pub running_battle-IsRunning :
    (room : Room) (b : Battle) → IsValid room → running_battle room ≡ ok b → IsRunning room b
running_battle-IsRunning room b v e =
    let (same, s) = running_battle-ok room b e in battling-Phase room room.status b s same v.phase

-- A room whose battle is replaced by another one in order.
replace-IsValid :
    (room : Room) (b c : Battle)
    → IsValid room
    → is_battling room.status ≡ true
    → IsRunning (record room { battle = some c }) c
    → IsValid (record room { battle = some c })
replace-IsValid room b c v s running = record {
  distinct = v.distinct;
  few = v.few;
  hosted = v.hosted;
  seated = v.seated;
  phase = to_battling-Phase _ room.status c s refl running;
  selection = v.selection;
}

pub award_word_bonus-IsValid :
    (room : Room) (id : Text) → IsValid room → Ensures IsValid (award_word_bonus room id)
unfolding award_word_bonus
award_word_bonus-IsValid room id v = Ensures-bind IsValid (running_battle room) _ λ b e.
    Ensures-throw_if IsValid (not (includes b.dancer_ids id)) _ _ λ _.
      let (same, s) = running_battle-ok room b e in
      let r = running_battle-IsRunning room b v e in
      replace-IsValid room b _ v s (record {
        distinct = r.distinct;
        enough = r.enough;
        competing = r.competing;
        votes = r.votes;
        one_each = r.one_each;
        unsettled = r.unsettled;
      })

abbrev IsWanted : Battle → Option Text → Type 0
IsWanted b none = Unit {0}
IsWanted b (some d) = includes b.dancer_ids d ≡ true

wanted_dancer-IsWanted : (b : Battle) (w : Wire) → Ensures (IsWanted b) (wanted_dancer b w)
unfolding wanted_dancer
wanted_dancer-IsWanted b (string id) =
    Ensures-throw_if (IsWanted b) (not (includes b.dancer_ids id)) _ _ λ h. ground arith
wanted_dancer-IsWanted b _ = tt

module _ (room : Room) (b : Battle) (voter : Text) where
  set_vote-votes :
      (wanted : Option Text)
      → has_player room.spectators voter ≡ true
      → IsWanted b wanted
      → All (IsVote room b) b.votes
      → All (IsVote room b) (set_vote voter wanted b.votes)
  set_vote-votes none seat w h = All-remove (IsVote room b) voter b.votes h
  set_vote-votes (some d) seat w h = All-insert (IsVote room b) voter d b.votes (seat, w) h

  set_vote-Distinct :
      (wanted : Option Text)
      → Distinct (keys b.votes)
      → Distinct (keys (set_vote voter wanted b.votes))
  set_vote-Distinct none h = Distinct-remove voter b.votes h
  set_vote-Distinct (some d) h = Distinct-insert voter d b.votes h

  vote-IsValid :
      (wanted : Option Text)
      → IsValid room
      → is_battling room.status ≡ true
      → has_player room.spectators voter ≡ true
      → IsWanted b wanted
      → IsRunning room b
      → IsValid (record room { battle = some (record b { votes = set_vote voter wanted b.votes }) })
  vote-IsValid wanted v s seat w r = replace-IsValid room b _ v s (record {
    distinct = r.distinct;
    enough = r.enough;
    competing = r.competing;
    votes = set_vote-votes wanted seat w r.votes;
    one_each = set_vote-Distinct wanted r.one_each;
    unsettled = r.unsettled;
  })

  changed-IsValid :
      (wanted : Option Text) (same : Bool)
      → IsValid (record room { battle = some (record b { votes = set_vote voter wanted b.votes }) })
      → IsValidIf (
          if same
          then none
          else some
              (record room { battle = some (record b { votes = set_vote voter wanted b.votes }) }))
  changed-IsValid wanted true h = tt
  changed-IsValid wanted false h = h

open_battle-ok : (room : Room) (b : Battle) → open_battle room ≡ ok b → running_battle room ≡ ok b
unfolding open_battle
open_battle-ok room b e = ground arith

pub cast_vote-IsValid :
    (room : Room) (voter : Text) (w : Wire) (now : ℕ)
    → IsValid room
    → Ensures IsValidIf (cast_vote room voter w now)
unfolding cast_vote
cast_vote-IsValid room voter w now v = Ensures-bind IsValidIf (open_battle room) _ λ b e.
    Ensures-throw_if IsValidIf (not (has_player room.spectators voter)) _ _ λ seat.
      Ensures-throw_if IsValidIf (ltb now b.started_at) _ _ λ _.
        Ensures-throw_if IsValidIf (leb b.ends_at now) _ _ λ _.
          Ensures-bind IsValidIf (wanted_dancer b w) _ λ wanted p.
            let running = open_battle-ok room b e in
            let wants =
              Ensures-ok (IsWanted b) (wanted_dancer b w) (wanted_dancer-IsWanted b w) p in
            changed-IsValid room b voter wanted _ (
              vote-IsValid room b voter wanted v (running_battle-ok room b running).1 (ground arith)
                wants (running_battle-IsRunning room b v running))

pub finish_battle-IsValid :
    (room : Room) (reason : BattleEndReason) (now : ℕ)
    → IsValid room
    → Ensures IsValid (finish_battle room reason now)
unfolding finish_battle
finish_battle-IsValid room reason now v = Ensures-bind IsValid (running_battle room) _ λ b e.
    record {
      distinct = v.distinct;
      few = v.few;
      hosted = v.hosted;
      seated = v.seated;
      phase = (_, _, refl, refl, refl);
      selection = v.selection;
    }

pub finish_at_deadline-IsValid :
    (room : Room) (now : ℕ) → IsValid room → Ensures IsValidIf (finish_at_deadline room now)
unfolding finish_at_deadline
finish_at_deadline-IsValid room now v =
    Ensures-elim IsValidIf room.battle _ _ (λ _. tt)
      λ b e.
        Ensures-if IsValidIf (not (is_battling room.status) || ltb now b.ends_at) _ _ (λ _. tt)
          λ _. Ensures-bind IsValidIf (finish_battle room song_end now) _ λ next f.
            Ensures-ok IsValid (finish_battle room song_end now)
              (finish_battle-IsValid room song_end now v) f

pub rematch-IsValid :
    (room : Room) (requester : Text) → IsValid room → Ensures IsValid (rematch room requester)
unfolding rematch
rematch-IsValid room requester v =
    Ensures-throw_if IsValid (not (room.host_id == requester)) _ _ λ _.
      Ensures-throw_if IsValid (not (is_finished room.status)) _ _ λ _. record {
        distinct = subst Distinct (sym (ids-map not_ready (λ p. refl) room.players)) v.distinct;
        few = omega (arith, v.few, length-map not_ready room.players);
        hosted = has_player-map not_ready (λ p. refl) room.players room.host_id ∙ v.hosted;
        seated = refl;
        phase = (refl, refl);
        selection = tt;
      }
