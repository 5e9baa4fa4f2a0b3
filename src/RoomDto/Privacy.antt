-- ===== src/RoomDto/Privacy.antt =====
-- What `toRoomDto` of roomDto.ts reads of the votes.
use dance_sync_back_end.Base.{
  Option-cases, Bool-cases, inl, inr, ℕ, ◌+◌, ◌≡◌, refl, ap, Bool, true, none, some, List, [], ◌∷◌,
  Text, Dict, lookup, values, includes, arith, sort,
}
use dance_sync_back_end.Model.{Room, Battle, ScoringPoints, is_battling}
use dance_sync_back_end.ScoringService.{vote_counts, rows_from, rank_from, row_before, standings}
use dance_sync_back_end.ScoringService.Counts.{count, lookup-vote_counts}
use dance_sync_back_end.RoomDto.{standings_shown, to_battle_dto, to_room_dto}

-- The same battle with other votes.
abbrev pub with_votes : Battle → Dict Text → Battle
with_votes b votes = record b { votes = votes }

rows_from-counts :
    (b : Battle) (votes : Dict Text) (points : ScoringPoints) (m n : Dict ℕ) (order : ℕ)
    (ids : List Text)
    → ((j : Text) → lookup j m ≡ lookup j n)
    → rows_from b points m order ids ≡ rows_from (with_votes b votes) points n order ids
unfolding rows_from
rows_from-counts b votes points m n order [] h = refl
rows_from-counts b votes points m n order (id ∷ ids) h =
    rw (h id, rows_from-counts b votes points m n (order + 1) ids h) refl

-- Each dancer of the battle has as many votes in the one as in the other.
abbrev pub SameTally : Battle → Dict Text → Type 0
SameTally b votes =
    (d : Text) → includes b.dancer_ids d ≡ true → count d (values b.votes) ≡ count d (values votes)

module _ (b : Battle) (votes : Dict Text) (h : SameTally b votes) where
  same_counts : (j : Text) → lookup j (vote_counts b) ≡ lookup j (vote_counts (with_votes b votes))
  same_counts j = elim (Bool-cases (includes b.dancer_ids j)) [
    | inl among ↦
        ground (arith, h j among, lookup-vote_counts b j, lookup-vote_counts (with_votes b votes) j)
    | inr outside ↦
        ground (arith, lookup-vote_counts b j, lookup-vote_counts (with_votes b votes) j)
  ]

  same_standings :
      (points : ScoringPoints) → standings b points ≡ standings (with_votes b votes) points
  unfolding standings
  same_standings points =
      ap (λ rows. rank_from 0 none (sort row_before rows))
        (rows_from-counts b votes points (vote_counts b) (vote_counts (with_votes b votes)) 0
          b.dancer_ids same_counts)

  same_shown : standings_shown b ≡ standings_shown (with_votes b votes)
  unfolding standings_shown
  same_shown = elim (Option-cases b.result) [
    | inl unfinished ↦ rw (unfinished, standings_shown) (same_standings b.scoring)
    | inr (result, finished) ↦ rw (finished, standings_shown) refl
  ]

  same_battle :
      (running : Bool) (at : ℕ)
      → to_battle_dto b running at ≡ to_battle_dto (with_votes b votes) running at
  unfolding to_battle_dto
  same_battle running at = rw same_shown refl

-- What is sent about a room with a battle does not say who voted for whom: with any other votes
-- that give each dancer of the battle as many, the very same is sent.
pub to_room_dto_private :
    (room : Room) (b : Battle) (votes : Dict Text) (at : ℕ)
    → room.battle ≡ some b
    → SameTally b votes
    → to_room_dto room at ≡ to_room_dto (record room { battle = some (with_votes b votes) }) at
unfolding to_room_dto
to_room_dto_private room b votes at e h =
    rw (e, same_battle b votes h (is_battling room.status) at) refl
