-- ===== src/Examples/Connections.antt =====
-- The sockets of ana and cid: who may act, and what a departure leaves them.
use dance_sync_back_end.Base.{
  ℕ, ◌+◌, false, ◌≤◌, ◌≡◌, refl, ◌⊎◌, some, [], ◌∷◌, List, Text, text, text_discrete,
}
use dance_sync_back_end.Errors.{ok}
use dance_sync_back_end.Model.{Room, string, null, dancer}
use dance_sync_back_end.UseCases.{Departure, leave_room}
use dance_sync_back_end.SocketHandlers.Sockets.{truthy}
use dance_sync_back_end.SocketHandlers.Sockets.Bindings.{ActsAs}
use dance_sync_back_end.SocketHandlers.ClientEvents.{ClientEvent, vote_cast, player_kick}
use dance_sync_back_end.SocketHandlers.Hub.{Hub, Moment, leave_seat}
use dance_sync_back_end.SocketHandlers.Events.{act}
use dance_sync_back_end.SocketHandlers.Joins.{handle}
use dance_sync_back_end.SocketHandlers.Joins.Authority.{
  refused, IsCutOff, handle-ActsAs, leave_seat-IsCutOff, kick-IsCutOff,
}
use dance_sync_back_end.Examples.Samples.{plain, ana, bea, cid, arena, lobby, duel, player}
use dance_sync_back_end.WordRaceRepository.{Races, open_round}
use dance_sync_back_end.WordRaceScheduler.{opens, expires}
use dance_sync_back_end.Server.RoundEnds.{RaceEvent, runs, submits, ends, happen_all}
use dance_sync_back_end.Server.RoundEnds.Keyed.{IsKeyed, change_all-IsKeyed}
use dance_sync_back_end.Server.RoundEnds.Once.{happen_all-le_one}
use dance_sync_back_end.WordRaceRepository.Races.{starts, steps}
use dance_sync_back_end.WordRaceRepository.Settling.{RaceStep}
use dance_sync_back_end.Examples.Races.{at_start, round_one, options}
use dance_sync_back_end.Examples.Hubs.{hub, moment, room_code, socket_of}

-- cid takes their vote back.
abbrev no_vote : ClientEvent
no_vote = vote_cast (string room_code) (string cid) null

handle-ActsAs_example :
    ((handle plain moment (socket_of cid) no_vote hub ≡ refused plain moment hub)
      × ¬ ActsAs plain (socket_of cid) (string room_code) (string cid))
    ⊎ (ActsAs plain (socket_of cid) (string room_code) (string cid)
        × ((room : Text) × (player : Text) × (handle plain moment (socket_of cid) no_vote hub
              ≡ act plain moment (socket_of cid) room player no_vote hub)
            × (truthy (socket_of cid).room_code ≡ some room)
            × (string cid ≡ string player)))
handle-ActsAs_example =
    handle-ActsAs plain moment (socket_of cid) no_vote hub (string room_code) (string cid) refl

abbrev without_cid : Room
without_cid = record arena {
  players = player dancer ana ∷ player dancer bea ∷ [];
  spectators = [];
  battle = some (record duel { votes = (text "dan", bea) ∷ [] });
  version = 4;
}

cid_left :
    (leave_seat plain moment room_code cid hub).0
    ≡ ok (some without_cid, record { battle_finished = false; discarded_voter_ids = [] })
unfolding leave_seat dance_sync_back_end.SocketHandlers.Hub.after_leave leave_room text_discrete
    dance_sync_back_end.UseCases.update_capturing dance_sync_back_end.UseCases.capture
    dance_sync_back_end.RoomRepository.apply_change dance_sync_back_end.RoomService.Departures.leave
    dance_sync_back_end.RoomService.Departures.remove_player
    dance_sync_back_end.RoomService.Departures.settle_battle_after_leave
    dance_sync_back_end.RoomService.Departures.first_id
    dance_sync_back_end.SongSelectionService.Choices.handle_player_left
cid_left = refl

leave_seat-IsCutOff_example :
    IsCutOff plain moment room_code cid (leave_seat plain moment room_code cid hub).1
leave_seat-IsCutOff_example =
    leave_seat-IsCutOff plain moment room_code cid hub
      (some without_cid, record { battle_finished = false; discarded_voter_ids = [] }) cid_left

-- ana, the host, kicks cid out of the lobby.
abbrev before_battle : Hub
before_battle = record hub { rooms = (room_code, lobby) ∷ [] }

abbrev lobby_after : Room
lobby_after = record lobby {
  players = player dancer ana ∷ player dancer bea ∷ [];
  spectators = [];
  version = 4;
}

cid_kicked :
    (dance_sync_back_end.UseCases.Commands.kick_player plain room_code ana
      (string cid)
      150
      (λ n. 0)
      before_battle.rooms).0
    ≡ ok lobby_after
unfolding dance_sync_back_end.UseCases.Commands.kick_player text_discrete
    dance_sync_back_end.RoomRepository.update_room dance_sync_back_end.RoomRepository.update
    dance_sync_back_end.RoomRepository.apply_change dance_sync_back_end.RoomService.Departures.kick
    dance_sync_back_end.RoomService.Departures.kicked_id
    dance_sync_back_end.RoomService.Departures.leave
    dance_sync_back_end.RoomService.Departures.remove_player
    dance_sync_back_end.RoomService.Departures.settle_battle_after_leave
    dance_sync_back_end.RoomService.Departures.first_id
    dance_sync_back_end.SongSelectionService.Choices.handle_player_left
cid_kicked = refl

kick-IsCutOff_example :
    IsCutOff plain moment room_code cid
      (act plain moment
        (socket_of ana)
        room_code
        ana
        (player_kick (string room_code) (string ana) (string cid))
        before_battle).1
kick-IsCutOff_example =
    kick-IsCutOff plain moment (socket_of ana) room_code ana cid (string room_code) (string ana)
      before_battle lobby_after cid_kicked

-- The first round of a race is opened, won by bea, and expires too late.
abbrev opened : Races
opened = (open_round plain room_code round_one at_start).1

abbrev at : ℕ → Moment
at now = record moment { now = now }

abbrev race_events : List (Moment × RaceEvent)
race_events =
    (at 104, runs (opens room_code round_one))
    ∷ (at 110, submits room_code bea round_one (text "ritmo") opened (λ r. r))
    ∷ (at 111, submits room_code ana round_one (text "ritmo") opened (λ r. r))
    ∷ (at 120, runs (expires room_code round_one))
    ∷ []

abbrev racing : Hub
racing = record hub { races = at_start }

racing-IsKeyed : IsKeyed plain racing.races
racing-IsKeyed =
    change_all-IsKeyed plain
      (starts arena options ∷ steps (RaceStep.opens room_code round_one) ∷ []) [] tt

happen_all-le_one_example :
    ends plain room_code round_one (happen_all plain race_events racing).effects
    ≤ ends plain room_code round_one racing.effects + 1
happen_all-le_one_example =
    happen_all-le_one plain room_code round_one race_events racing racing-IsKeyed
