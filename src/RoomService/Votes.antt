-- ===== src/RoomService/Votes.antt =====
-- Who may vote, and what a vote does: `castVote` and `voteOf`.
use dance_sync_back_end.Base.{
  ℕ, ◌≤◌, ◌<◌, ◌⊎◌, ◌≡◌, refl, true, false, ◌↔◌, inl, inr, Option, Bool-cases, none, some, Text,
  ◌==◌, Dict, includes, lookup, lookup-insert, lookup-remove, arith, get_or, if◌then◌else◌,
}
use dance_sync_back_end.Errors.{is_ok, ok, Result-cases}
use dance_sync_back_end.Model.{
  Room, Battle, Wire, string, null, boolean, missing, other, array, is_battling, is_finished,
  RoomStatus, waiting, battling, finished,
}
use dance_sync_back_end.RoomService.{has_player}
use dance_sync_back_end.RoomService.Battles.{
  running_battle, open_battle, wanted_dancer, same_vote, set_vote, cast_vote, vote_of,
}

-- The message is a dancer of the battle, or withdraws the vote.
abbrev pub Names : Battle → Wire → Type 0
Names b null = Unit {0}
Names b (string d) = includes b.dancer_ids d ≡ true
Names b _ = ⊥

-- What the message asks for.
abbrev pub wish : Wire → Option Text
wish (string d) = some d
wish _ = none

pub record MayVote (room : Room) (b : Battle) (voter_id : Text) (message : Wire) (now : ℕ)
    : Type 0 where
  pub running : is_battling room.status ≡ true
  pub spectating : has_player room.spectators voter_id ≡ true
  pub started : b.started_at ≤ now
  pub not_over : now < b.ends_at
  pub named : Names b message

wanted_dancer-Names :
    (b : Battle) (message : Wire) (w : Option Text)
    → wanted_dancer b message ≡ ok w
    → Names b message × (wish message ≡ w)
unfolding wanted_dancer
wanted_dancer-Names b null w e = (tt, ground arith)
wanted_dancer-Names b (string d) w e = ground arith
wanted_dancer-Names b (boolean x) w e = absurd (ground arith)
wanted_dancer-Names b missing w e = absurd (ground arith)
wanted_dancer-Names b other w e = absurd (ground arith)
wanted_dancer-Names b (array x) w e = absurd (ground arith)

Names-wanted_dancer :
    (b : Battle) (message : Wire) → Names b message → wanted_dancer b message ≡ ok (wish message)
unfolding wanted_dancer
Names-wanted_dancer b null h = refl
Names-wanted_dancer b (string d) h = rw h refl
Names-wanted_dancer b (boolean x) h = absurd h
Names-wanted_dancer b missing h = absurd h
Names-wanted_dancer b other h = absurd h
Names-wanted_dancer b (array x) h = absurd h

battling-not_finished : (s : RoomStatus) → is_battling s ≡ true → is_finished s ≡ false
battling-not_finished waiting e = cc
battling-not_finished battling e = refl
battling-not_finished finished e = cc

open_battle-cases :
    (room : Room) (b : Battle)
    → room.battle ≡ some b
    → ((is_battling room.status ≡ true) × (open_battle room ≡ ok b))
      ⊎ ((is_battling room.status ≡ false) × (is_ok (open_battle room) ≡ false))
unfolding open_battle running_battle
open_battle-cases room b e = elim (Bool-cases (is_battling room.status)) [
  | inl now ↦ inl (now, ground (arith, battling-not_finished room.status now))
  | inr never ↦ inr (never, ground arith)
]

lookup-set_vote :
    (v j : Text) (x : Option Text) (m : Dict Text)
    → lookup j (set_vote v x m) ≡ (if v == j then x else lookup j m)
lookup-set_vote v j none m = lookup-remove v j m
lookup-set_vote v j (some d) m = lookup-insert v j d m

same_vote→≡ : (a b : Option Text) → same_vote a b ≡ true → a ≡ b
same_vote→≡ none none e = refl
same_vote→≡ none (some b) e = cc
same_vote→≡ (some a) none e = cc
same_vote→≡ (some a) (some b) e = ground arith

-- The room once the vote is as asked, and `none` if it already was.
abbrev pub voted_room : Room → Battle → Text → Wire → Option Room
voted_room room b voter_id message =
    if same_vote (lookup voter_id b.votes) (wish message)
    then none
    else some (record room {
      battle = some (record b { votes = set_vote voter_id (wish message) b.votes });
    })

module _ (room : Room) (b : Battle) (voter_id : Text) (message : Wire) (now : ℕ)
    (e : room.battle ≡ some b) where
  cast_vote-MayVote :
      (next : Option Room)
      → cast_vote room voter_id message now ≡ ok next
      → MayVote room b voter_id message now × (next ≡ voted_room room b voter_id message)
  unfolding cast_vote
  cast_vote-MayVote next = elim (open_battle-cases room b e) [
    | inr (never, o) ↦ λ g. absurd (ground arith)
    | inl (run, o) ↦ elim (Result-cases (wanted_dancer b message)) [
      | inl (f, w) ↦ rw (o, w) λ g. absurd (ground arith)
      | inr (x, w) ↦
          rw (o, w)
            λ g.
              let (named, asked) = wanted_dancer-Names b message x w in
              (
                record {
                  running = run;
                  spectating = ground arith;
                  started = ground arith;
                  not_over = ground arith;
                  named = named;
                },
                ground arith,
              )
    ]
  ]

  MayVote-cast_vote :
      MayVote room b voter_id message now
      → cast_vote room voter_id message now ≡ ok (voted_room room b voter_id message)
  unfolding cast_vote
  MayVote-cast_vote m = elim (open_battle-cases room b e) [
    | inr (never, o) ↦ absurd (ground (arith, m.running))
    | inl (run, o) ↦
        rw (o, Names-wanted_dancer b message m.named)
          (ground (arith, m.spectating, m.started, m.not_over))
  ]

  -- In a room with a battle, a vote is accepted exactly when the battle is running, the voter is a
  -- spectator of the room, the moment lies in the battle from its start until before its end, and
  -- the message is null or a dancer of the battle.
  pub cast_vote-MayVote_iff :
      (is_ok (cast_vote room voter_id message now) ≡ true) ↔ MayVote room b voter_id message now
  cast_vote-MayVote_iff = (
    λ accepted. elim (Result-cases (cast_vote room voter_id message now)) [
      | inl (f, c) ↦ absurd (ground arith)
      | inr (next, c) ↦ (cast_vote-MayVote next c).0
    ],
    λ m. rw (MayVote-cast_vote m) refl,
  )

  -- In a room with a battle, when a vote is accepted, the voter has then the vote that the message
  -- asks for (none for null), and everybody else's vote is what it was.
  pub vote_of-cast_vote :
      (next : Option Room) (j : Text)
      → cast_vote room voter_id message now ≡ ok next
      → vote_of (get_or next room) j ≡ (if voter_id == j then wish message else vote_of room j)
  unfolding vote_of
  vote_of-cast_vote next j c =
      rw (cast_vote-MayVote next c).1
        (elim (Bool-cases (same_vote (lookup voter_id b.votes) (wish message))) [
          | inl same ↦
              rw (same, e)
                (ground (arith, same_vote→≡ (lookup voter_id b.votes) (wish message) same))
          | inr differs ↦ rw (differs, e) (lookup-set_vote voter_id j (wish message) b.votes)
        ])
