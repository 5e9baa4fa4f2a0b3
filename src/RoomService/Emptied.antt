-- ===== src/RoomService/Emptied.antt =====
-- The last player leaves, in RoomService.ts: the leave succeeds and nobody is left.
use dance_sync_back_end.Base.{
  ℕ, ◌≡◌, refl, true, not, none, some, inl, inr, Bool-cases, Option-cases, List, [], ◌∷◌, Text, ltb,
  length, filter, eq_refl, arith, ◌||◌, ◌∙◌,
}
use dance_sync_back_end.Errors.{ok}
use dance_sync_back_end.Model.{
  Room, Player, not_enough_dancers_left, is_battling, is_choosing, min_dancers_per_battle,
}
use dance_sync_back_end.SongSelectionService.{RandomIndex, is_present, assign_fallback_chooser}
use dance_sync_back_end.SongSelectionService.Choices.{handle_player_left, is_chooser}
use dance_sync_back_end.MatchRecordService.Records.{closed_room}
use dance_sync_back_end.RoomService.{has_player}
use dance_sync_back_end.RoomService.Battles.{finish_battle, running_battle}
use dance_sync_back_end.RoomService.Departures.{
  without_player, withdraw, settle_battle_after_leave, remove_player, leave,
}

abbrev Keeps : Room → Room → Type 0
Keeps room next = next.players ≡ room.players

settle-players :
    (room : Room) (id : Text) (now : ℕ)
    → (next : Room) × (settle_battle_after_leave room id now ≡ ok next) × Keeps room next
unfolding settle_battle_after_leave finish_battle running_battle
settle-players room id now = elim (Option-cases room.battle) [
  | inl e ↦ (room, ground (arith, e), refl)
  | inr (b, e) ↦ elim (Bool-cases (is_battling room.status)) [
    | inr idle ↦ (room, ground (arith, e, idle), refl)
    | inl busy ↦
        elim (Bool-cases (ltb (length (withdraw b id).dancer_ids) min_dancers_per_battle)) [
          | inl few ↦ (
            closed_room (record room { battle = some (withdraw b id) }) (withdraw b id)
                not_enough_dancers_left now,
            rw (e, busy, few, settle_battle_after_leave) refl,
            refl,
          )
          | inr enough ↦ (
            record room { battle = some (withdraw b id) },
            rw (e, busy, enough, settle_battle_after_leave) refl,
            refl,
          )
        ]
  ]
]

absent : (room : Room) (ids : List Text) → room.players ≡ [] → filter (is_present room) ids ≡ []
absent room [] e = refl
absent room (id ∷ ids) e = ground (arith, e, absent room ids e)

left-players :
    (room : Room) (id : Text) (random : RandomIndex) (now : ℕ)
    → room.players ≡ []
    → (next : Room) × (handle_player_left room id random now ≡ ok next) × (next.players ≡ [])
unfolding handle_player_left assign_fallback_chooser
left-players room id random now empty = elim (Option-cases room.song_selection) [
  | inl e ↦ (room, ground (arith, e), empty)
  | inr (s, e) ↦ elim (Bool-cases (not (is_choosing s.phase) || not (is_chooser s id))) [
    | inl other ↦ (room, ground (arith, e, other), empty)
    | inr chose ↦ (
      record room { song_selection = none },
      rw (e, chose, handle_player_left)
          (rw (absent room s.participant_ids empty, assign_fallback_chooser) refl),
      empty,
    )
  ]
]

leave-steps :
    (room settled next : Room) (id : Text) (random : RandomIndex) (now : ℕ)
    → has_player room.players id ≡ true
    → settle_battle_after_leave (remove_player room id) id now ≡ ok settled
    → handle_player_left settled id random now ≡ ok next
    → leave room id now random ≡ ok next
unfolding leave
leave-steps room settled next id random now here s l = rw (here, s, l, leave) refl

sole :
    (id : Text) (players : List Player) (p : Player)
    → players ≡ p ∷ []
    → p.id ≡ id
    → (has_player players id ≡ true) × (without_player players id ≡ [])
sole id [] p e n = absurd (ground arith)
sole id (q ∷ players) p e n =
    let same : q ≡ p = ground arith in
    let rest : players ≡ [] = ground arith in
    (ground (arith, same, n, eq_refl id), ground (arith, same, rest, n, eq_refl id))

pub leave-last :
    (room : Room) (p : Player) (random : RandomIndex) (now : ℕ)
    → room.players ≡ p ∷ []
    → (next : Room) × (leave room p.id now random ≡ ok next) × (next.players ≡ [])
unfolding remove_player
leave-last room p random now e =
    let (here, gone) = sole p.id room.players p e refl in
    let (settled, s, kept) = settle-players (remove_player room p.id) p.id now in
    let (next, l, empty) = left-players settled p.id random now (kept ∙ gone) in
    (next, leave-steps room settled next p.id random now here s l, empty)
