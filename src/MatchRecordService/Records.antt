-- ===== src/MatchRecordService/Records.antt =====
-- The record that `fromFinishedRoom` of MatchRecordService.ts makes of a battle that finished.
use mathlib.Core.Bool.{Bool-set}
use mathlib.Core.List.{Perm, Permᴰ}
use dance_sync_back_end.Base.{
  ℕ, ◌+◌, ◌*◌, ◌≡◌, ◌∙◌, refl, sym, subst, ap, true, false, not, none, some, List, [], ◌∷◌, ◌++◌,
  map, Text, ◌==◌, Dict, lookup, lookup-insert, insert, insert_all, values, All, Distinct, includes,
  get_or, arith, inl, inr, Bool-cases, eq→path, ◌⊎◌,
}
use dance_sync_back_end.Errors.{ok}
use dance_sync_back_end.Model.{
  is_battling, Player, finished, Room, Battle, BattleEndReason, Standing, RosterEntry, MatchRecord,
  MatchParticipantRecord,
}
use dance_sync_back_end.RoomService.{has_player}
use dance_sync_back_end.RoomService.Battles.{running_battle, finish_battle}
use dance_sync_back_end.ScoringService.{standings, result}
use dance_sync_back_end.ScoringService.Counts.{count}
use dance_sync_back_end.ScoringService.Ranking.{IsCounted, standings-IsRanking}
use dance_sync_back_end.MatchRecordService.{
  standings_by_id, dancer_record, spectator_record, record_of, from_finished_room,
}

includes-Permᴰ : (xs ys : List Text) (d : Text) → Permᴰ xs ys → includes xs d ≡ includes ys d
includes-Permᴰ _ _ d Permᴰ.nil = refl
includes-Permᴰ _ _ d (Permᴰ.cons {l₁ = xs} {l₂ = ys} e p) =
    ground (arith, e, includes-Permᴰ xs ys d p)
includes-Permᴰ _ _ d (Permᴰ.swap e f) = ground (arith, e, f)
includes-Permᴰ xs ys d (Permᴰ.trans {l₂ = zs} p q) =
    includes-Permᴰ xs zs d p ∙ includes-Permᴰ zs ys d q

includes-Perm : (xs ys : List Text) (d : Text) → Perm xs ys → includes xs d ≡ includes ys d
includes-Perm xs ys d p =
    ∥∥₁_rec (Bool-set (includes xs d) (includes ys d)) (includes-Permᴰ xs ys d) p

-- What the map of the standings holds for a dancer, over what it held before.
lookup-standings :
    (P : Standing → Type 0) (m : Dict Standing) (l : List Standing) (d : Text)
    → All P l
    → ((includes (map (λ s. s.dancer_id) l) d ≡ false)
        × (lookup d (insert_all m (map (λ (s : Standing). (s.dancer_id, s)) l)) ≡ lookup d m))
      ⊎ ((s : Standing) × (includes (map (λ s. s.dancer_id) l) d ≡ true)
          × P s
          × (s.dancer_id ≡ d)
          × (lookup d (insert_all m (map (λ (s : Standing). (s.dancer_id, s)) l)) ≡ some s))
lookup-standings P m [] d h = inl (refl, refl)
lookup-standings P m (s ∷ l) d h = elim (lookup-standings P (insert s.dancer_id s m) l d h.1) [
  | inr (t, among, p, e, found) ↦ inr (t, ground (arith, among), p, e, found)
  | inl (later, same) ↦ elim (Bool-cases (s.dancer_id == d)) [
    | inl here ↦ inr (
      s,
      ground (arith, here),
      h.0,
      eq→path s.dancer_id d here,
      ground (arith, same, lookup-insert s.dancer_id d s m, here),
    )
    | inr elsewhere ↦ inl (
      ground (arith, later, elsewhere),
      ground (arith, same, lookup-insert s.dancer_id d s m, elsewhere),
    )
  ]
]

-- What the record says of a dancer of the roster: the votes for them, the rounds they won and their
-- score if they danced to the end, and that they left early otherwise.
pub record IsFinal (b : Battle) (id : Text) (r : MatchParticipantRecord) : Type 0 where
  pub player : r.player_id ≡ id
  pub words : r.words_won ≡ some (get_or (lookup id b.words_won) 0)
  pub danced :
      includes b.dancer_ids id ≡ true
      → (r.left_early ≡ false)
        × (r.votes ≡ some (count id (values b.votes)))
        × (r.score
            ≡ some (
                b.scoring.vote_points * count id (values b.votes)
                + b.scoring.word_bonus_points * get_or (lookup id b.words_won) 0))
  pub left :
      includes b.dancer_ids id ≡ false
      → (r.left_early ≡ true) × (r.votes ≡ none) × (r.score ≡ none) × (r.rank ≡ none)

module _ (b : Battle) (distinct : Distinct b.dancer_ids) where
  abbrev final : List Standing
  final = standings b b.scoring

  dancer_record-IsFinal :
      (e : RosterEntry) → IsFinal b e.id (dancer_record b (standings_by_id final) e)
  dancer_record-IsFinal e =
      let ranking = standings-IsRanking b b.scoring distinct in
      let among = includes-Perm (map (λ s. s.dancer_id) final) b.dancer_ids e.id ranking.dancers in
      elim (lookup-standings (IsCounted b b.scoring) [] final e.id ranking.counted) [
        | inl (absent, none_found) ↦ rw none_found (record {
          player = refl;
          words = refl;
          danced = λ h. absurd (ground (arith, h, among, absent));
          left = λ h. (ground (arith, h), refl, refl, refl);
        })
        | inr (s, listed, c, same, found) ↦ rw found (record {
          player = refl;
          words = ground (arith, c.words, same);
          danced = λ h. (
            ground (arith, h),
            ground (arith, c.votes, same),
            ground (arith, c.score, c.votes, c.words, same),
          );
          left = λ h. absurd (ground (arith, h, among, listed));
        })
      ]

-- What the record says of a spectator: no figures, and whether they are still in the room.
pub record IsWatcher (room : Room) (id : Text) (r : MatchParticipantRecord) : Type 0 where
  pub player : r.player_id ≡ id
  pub no_score : (r.votes ≡ none) × (r.score ≡ none) × (r.rank ≡ none)
  pub present : r.left_early ≡ not (has_player room.players id)

-- One record for each entry, in order.
abbrev pub Each :
    (Text → MatchParticipantRecord → Type 0)
    → List RosterEntry
    → List MatchParticipantRecord
    → Type 0
Each P [] [] = Unit {0}
Each P [] (r ∷ rs) = ⊥
Each P (e ∷ es) [] = ⊥
Each P (e ∷ es) (r ∷ rs) = P e.id r × Each P es rs

Each-map :
    (P : Text → MatchParticipantRecord → Type 0) (f : RosterEntry → MatchParticipantRecord)
    → ((e : RosterEntry) → P e.id (f e))
    → (es : List RosterEntry) → Each P es (map f es)
Each-map P f h [] = tt
Each-map P f h (e ∷ es) = (h e, Each-map P f h es)

pub record IsRecord (room : Room) (b : Battle) (reason : BattleEndReason) (now : ℕ)
    (m : MatchRecord) : Type 0 where
  pub battle : m.id ≡ b.id
  pub winner : m.winner_player_id ≡ (result b b.scoring).winner_id
  pub finished_at : m.finished_at ≡ now
  pub why : m.end_reason ≡ reason
  pub dancers : List MatchParticipantRecord
  pub watchers : List MatchParticipantRecord
  pub everybody : m.participants ≡ dancers ++ watchers
  pub final : Each (IsFinal b) b.roster dancers
  pub watched : Each (IsWatcher room) b.audience watchers

includes-ids :
    (ps : List Player) (id : Text) → includes (map (λ (p : Player). p.id) ps) id ≡ has_player ps id
includes-ids [] id = refl
includes-ids (p ∷ ps) id = ground (arith, includes-ids ps id)

-- The battle, and its room, once it is closed.
abbrev pub closed_battle : Battle → BattleEndReason → ℕ → Battle
closed_battle b reason now = record b {
  finished_at = some now;
  end_reason = some reason;
  result = some (result b b.scoring);
}

abbrev pub closed_room : Room → Battle → BattleEndReason → ℕ → Room
closed_room room b reason now = record room {
  status = finished;
  battle = some (closed_battle b reason now);
  last_result = some (result b b.scoring);
}

finish_battle-closed :
    (room next : Room) (b : Battle) (reason : BattleEndReason) (now : ℕ)
    → room.battle ≡ some b
    → finish_battle room reason now ≡ ok next
    → next ≡ closed_room room b reason now
unfolding finish_battle running_battle
finish_battle-closed room next b reason now e h = elim (Bool-cases (is_battling room.status)) [
  | inl running ↦ ground arith
  | inr idle ↦ absurd (ground arith)
]

-- When a battle with distinct dancers finishes, its room has a match record, with the battle's
-- winner, the time and the reason: for each dancer of the roster in order, the votes for them, the
-- rounds won and the score if they danced to the end, and otherwise that they left early; and for
-- each spectator of the start, whether they are still in the room.
pub finish_battle-IsRecord :
    (room next : Room) (b : Battle) (reason : BattleEndReason) (now : ℕ)
    → room.battle ≡ some b
    → Distinct b.dancer_ids
    → finish_battle room reason now ≡ ok next
    → (m : MatchRecord) × (from_finished_room next ≡ some m) × IsRecord room b reason now m
unfolding from_finished_room result
finish_battle-IsRecord room next b reason now e d h =
    subst (λ r. (m : MatchRecord) × (from_finished_room r ≡ some m) × IsRecord room b reason now m)
      (sym (finish_battle-closed room next b reason now e h))
      (
        record_of (closed_room room b reason now) (closed_battle b reason now) (result b b.scoring)
            now reason,
        refl,
        record {
          battle = refl;
          winner = refl;
          finished_at = refl;
          why = refl;
          dancers = map (dancer_record b (standings_by_id (standings b b.scoring))) b.roster;
          watchers = map (spectator_record (map (λ (p : Player). p.id) room.players)) b.audience;
          everybody = refl;
          final = Each-map (IsFinal b) _ (dancer_record-IsFinal b d) b.roster;
          watched =
              Each-map (IsWatcher room) _
                (λ w. record {
                  player = refl;
                  no_score = (refl, refl, refl);
                  present = ap not (includes-ids room.players w.id);
                })
                b.audience;
        },
      )
