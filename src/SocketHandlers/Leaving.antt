-- ===== src/SocketHandlers/Leaving.antt =====
-- What a leave announced by socketHandlers.ts does not touch.
use dance_sync_back_end.Base.{
  ◌≡◌, refl, inl, inr, Bool-cases, not, Option, none, some, List, [], ◌∷◌, Text,
}
use dance_sync_back_end.Model.{Room, is_battling}
use dance_sync_back_end.Identity.{Unicode}
use dance_sync_back_end.UseCases.{Departure}
use dance_sync_back_end.SocketHandlers.Hub.{Hub, Moment, tell_voters, announce_leave}

-- The sockets and the rooms are what they were.
abbrev pub Spares : Hub → Hub → Type 0
Spares before after = (after.sockets ≡ before.sockets) × (after.rooms ≡ before.rooms)

tell_voters-Spares :
    (code : Text) (voters : List Text) (hub : Hub) → Spares hub (tell_voters code voters hub)
tell_voters-Spares code [] hub = (refl, refl)
tell_voters-Spares code (v ∷ voters) hub = tell_voters-Spares code voters _

pub announce_leave-Spares :
    (u : Unicode) (m : Moment) (code : Text) (room : Option Room) (d : Departure) (hub : Hub)
    → Spares hub (announce_leave u m code room d hub)
unfolding announce_leave
announce_leave-Spares u m code none d hub = (refl, refl)
announce_leave-Spares u m code (some room) d hub = elim (Bool-cases d.battle_finished) [
  | inl over ↦ rw over (tell_voters-Spares room.code d.discarded_voter_ids hub)
  | inr on ↦ elim (Bool-cases (not (is_battling room.status))) [
    | inl idle ↦ rw (on, idle) (tell_voters-Spares room.code d.discarded_voter_ids hub)
    | inr busy ↦ rw (on, busy) (tell_voters-Spares room.code d.discarded_voter_ids hub)
  ]
]
