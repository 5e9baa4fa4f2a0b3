-- ===== src/UseCases/Requests.antt =====
-- Any sequence of commands on rooms, those of the timers included, one after the other: the store's
-- updates are single steps, so every interleaving of clients is such a sequence.
pub mod Changes
pub mod Validity
use dance_sync_back_end.Base.{ℕ, Text, List, [], ◌∷◌}
use dance_sync_back_end.Model.{Wire}
use dance_sync_back_end.Identity.{Unicode}
use dance_sync_back_end.SongSelectionService.{RandomIndex, StartChallengeOptions}
use dance_sync_back_end.RoomService.Starting.{StartBattleOptions}
use dance_sync_back_end.RoomRepository.{Rooms}
use dance_sync_back_end.UseCases.{create_room, join_room, leave_room}
use dance_sync_back_end.UseCases.Commands.{
  select_role, set_ready, kick_player, start_song_challenge, submit_song_phrase,
  expire_song_challenge, choose_song, auto_pick_song, start_battle, award_word_bonus, cast_vote,
  finish_battle_at_deadline, start_rematch, delete_if_empty,
}

pub data Request : Type 0 where
  creates : Wire → Wire → ℕ → List Text → Request
  joins : Wire → Wire → Wire → Request
  leaves : Text → Text → ℕ → Request
  selects_role : Text → Text → Wire → Request
  sets_ready : Text → Text → Wire → Request
  kicks : Text → Text → Wire → ℕ → Request
  starts_challenge : Text → Text → StartChallengeOptions → Request
  submits_phrase : Text → Text → Wire → ℕ → Request
  challenge_expires : Text → Text → ℕ → Request
  chooses_song : Text → Text → Text → StartBattleOptions → Request
  choice_expires : Text → Text → StartBattleOptions → Request
  starts_battle : Text → Text → Wire → StartBattleOptions → Request
  wins_word : Text → Text → Request
  votes : Text → Text → Wire → ℕ → Request
  song_ends : Text → Text → ℕ → Request
  rematches : Text → Text → Request
  reaps : Text → Request

module _ (u : Unicode) where
  -- The rooms after a request; `random` is the random index that it uses.
  unfoldable pub serve : RandomIndex → Request → Rooms → Rooms
  serve random (creates id name now codes) rooms = (create_room u id name now codes rooms).1
  serve random (joins code id name) rooms = (join_room u code id name rooms).1
  serve random (leaves code id now) rooms = (leave_room u code id now random rooms).1
  serve random (selects_role code id role) rooms = (select_role u code id role rooms).1
  serve random (sets_ready code id ready) rooms = (set_ready u code id ready rooms).1
  serve random (kicks code host id now) rooms = (kick_player u code host id now random rooms).1
  serve random (starts_challenge code host o) rooms = (start_song_challenge u code host o rooms).1
  serve random (submits_phrase code id attempt now) rooms =
      (submit_song_phrase u code id attempt now random rooms).1
  serve random (challenge_expires code challenge_id now) rooms =
      (expire_song_challenge u code challenge_id random now rooms).1
  serve random (chooses_song code id song_id o) rooms = (choose_song u code id song_id o rooms).1
  serve random (choice_expires code challenge_id o) rooms =
      (auto_pick_song u code challenge_id random o rooms).1
  serve random (starts_battle code host ids o) rooms = (start_battle u code host ids o rooms).1
  serve random (wins_word code id) rooms = (award_word_bonus u code id rooms).1
  serve random (votes code voter dancer now) rooms = (cast_vote u code voter dancer now rooms).1
  serve random (song_ends code battle_id now) rooms =
      (finish_battle_at_deadline u code battle_id now rooms).1
  serve random (rematches code host) rooms = (start_rematch u code host rooms).1
  serve random (reaps code) rooms = (delete_if_empty u code rooms).1

  unfoldable pub serve_all : List (RandomIndex × Request) → Rooms → Rooms
  unfolding serve
  serve_all [] rooms = rooms
  serve_all ((random, request) ∷ requests) rooms = serve_all requests (serve random request rooms)
