-- ===== src/Examples/Votes.antt =====
-- A vote in the duel.
use dance_sync_back_end.Base.{◌≡◌, refl, ◌↔◌, true, some, get_or, text_discrete}
use dance_sync_back_end.Errors.{ok, is_ok}
use dance_sync_back_end.Model.{string}
use dance_sync_back_end.RoomService.Battles.{cast_vote, vote_of}
use dance_sync_back_end.RoomService.Votes.{
  MayVote, voted_room, cast_vote-MayVote_iff, vote_of-cast_vote,
}
use dance_sync_back_end.Examples.Samples.{ana, cid, duel, arena}

-- cid may change their vote from bea to ana.
cast_vote-MayVote_example :
    (is_ok (cast_vote arena cid (string ana) 150) ≡ true) ↔ MayVote arena duel cid (string ana) 150
cast_vote-MayVote_example = cast_vote-MayVote_iff arena duel cid (string ana) 150 refl

cid_votes : cast_vote arena cid (string ana) 150 ≡ ok (voted_room arena duel cid (string ana))
unfolding cast_vote text_discrete
cid_votes = refl

vote_of-cast_vote_example :
    vote_of (get_or (voted_room arena duel cid (string ana)) arena) cid ≡ some ana
unfolding text_discrete
vote_of-cast_vote_example =
    vote_of-cast_vote arena duel cid (string ana) 150 refl (voted_room arena duel cid (string ana))
      cid cid_votes
