-- ===== src/SocketHandlers/Events.antt =====
-- The handlers of socketHandlers.ts, one for each event of a client. A handler runs to its end before
-- the next one starts. In the source another may run where one awaits; the deadline timers that are
-- armed out of order by that are the subject of Arming/Newest.
use dance_sync_back_end.Base.{
  ℕ, Bool, true, false, Option, none, some, List, [], ◌∷◌, map, any, find, Text, ◌==◌, includes,
  if◌then◌else◌,
}
use dance_sync_back_end.Errors.{Result, ok, err, plain_error, throw, player_not_in_room}
use dance_sync_back_end.Model.{Room, Wire, string, SubmitWordOutcome, word_won}
use dance_sync_back_end.Identity.{Unicode}
use dance_sync_back_end.RoomRepository.{Rooms}
use dance_sync_back_end.UseCases
use dance_sync_back_end.UseCases.Commands
use dance_sync_back_end.UseCases.WordRaces.{SubmitWordOutput, submit_word}
use dance_sync_back_end.UseCases.Chat.{ChatMessage, send_chat_message}
use dance_sync_back_end.RoomDto.{to_room_dto}
use dance_sync_back_end.WordRaceMessages.{round_ended_payload}
use dance_sync_back_end.SocketHandlers.Sockets.{
  Socket, is_bound_to, player_channel, in_channel, is_same,
}
use dance_sync_back_end.SocketHandlers.ClientEvents
use dance_sync_back_end.SocketHandlers.ClientEvents.{
  ClientEvent, ServerEvent, Reply, WebRtcSignal, ErrorCode, room_reply, left_reply, phrase_reply,
  word_reply, chat_reply, vote_reply, null_reply, room_kicked, vote_mine, word_round_started,
  word_round_ended, webrtc_peer_ready, signal_relayed, error_domain,
}
use dance_sync_back_end.SocketHandlers.Signals.{require_valid_signal}
use dance_sync_back_end.SocketHandlers.Hub.{
  to_channel, to_socket, to_others, Hub, Moment, emit, emit_vote_mine, tell_voters, publish_room,
  announce_battle_started, leave_seat, stop_race, vacate,
}

-- The answer to a client, and the state after the handler.
abbrev pub Handled : Type 0
Handled = Result Reply × Hub

-- updateRoom: no room back is a plain Error
abbrev pub kept_room {ℓ} : {B : Type ℓ} → Result (Option Room × B) → Result (Room × B)
kept_room (err e) = err e
kept_room (ok (none, b)) = err plain_error
kept_room (ok (some room, b)) = ok (room, b)

-- What a command answered, with the rooms after it; the rest of the handler runs if it returned.
abbrev pub after_rooms {ℓ} : {B : Type ℓ} → Result B × Rooms → Hub → (B → Hub → Handled) → Handled
after_rooms (err e, rooms) hub f = (err e, record hub { rooms = rooms })
after_rooms (ok b, rooms) hub f = f b (record hub { rooms = rooms })

abbrev pub kept_rooms {ℓ} :
    {B : Type ℓ} → Result (Option Room × B) × Rooms → Result (Room × B) × Rooms
kept_rooms (r, rooms) = (kept_room r, rooms)

abbrev pub set_socket : Socket → List Socket → List Socket
set_socket socket sockets = map (λ s. if s.id == socket.id then socket else s) sockets

abbrev pub join_channel : Text → List Text → List Text
join_channel channel channels = if includes channels channel then channels else channel ∷ channels

abbrev pub find_socket : Text → List Socket → Option Socket
find_socket id sockets = find (λ (s : Socket). s.id == id) sockets

module _ (u : Unicode) (m : Moment) where
  abbrev pub published : Room → Hub → Handled
  published room hub = (ok (room_reply (to_room_dto room m.now)), publish_room u m room hub)

  abbrev pub started_or_published : Room × Bool → Hub → Handled
  started_or_published (room, started) hub = (
    ok (room_reply (to_room_dto room m.now)),
    if started then announce_battle_started u m room hub else publish_room u m room hub,
  )

  -- socket.emit to every socket of the player that is bound to the room
  unfoldable pub tell_kicked : Text → Text → List Socket → Hub → Hub
  tell_kicked room_code player_id [] hub = hub
  tell_kicked room_code player_id (s ∷ sockets) hub = tell_kicked room_code player_id sockets (
      if is_bound_to u room_code player_id s
      then emit (to_socket s.id) (room_kicked room_code) hub
      else hub)

  unfoldable pub kicked : Text → Room → Hub → Handled
  unfolding tell_kicked
  kicked player_id room hub =
      published room
        (vacate u m room.code player_id (tell_kicked room.code player_id hub.sockets hub))

  -- the id that a kick names, which the command has found to be a text
  abbrev pub named : Wire → Text
  named (string id) = id
  named _ = []

  -- awardWordBonus: the room, or null when the battle is over or the winner left
  abbrev pub pay_word_bonus : Text → Text → Rooms → Option Room × Rooms
  pay_word_bonus room_code player_id rooms =
      let (r, after) = Commands.award_word_bonus u room_code player_id rooms in
      (elim r [ err e ↦ none | ok room ↦ some room ], after)

  -- The winner is announced, with the bonus if it was paid.
  unfoldable pub won_word : Text → Text → SubmitWordOutput → Hub → Hub
  won_word room_code player_id out hub =
      let (bonus, rooms) = pay_word_bonus room_code player_id hub.rooms in
      let ended = λ (points : ℕ).
        emit (to_channel room_code)
          (word_round_ended (round_ended_payload out.race out.round points))
          (record hub { rooms = rooms }) in
      elim bonus [
        | none ↦ ended 0
        | some room ↦
            publish_room u m room (
              ended
                (elim room.battle [ none ↦ 0 | some battle ↦ battle.scoring.word_bonus_points ]))
      ]

  abbrev pub is_won : SubmitWordOutcome → Bool
  is_won word_won = true
  is_won _ = false

  unfoldable pub submitted_word : Text → Text → Result SubmitWordOutput → Hub → Handled
  unfolding won_word
  submitted_word room_code player_id (err e) hub = (err e, hub)
  submitted_word room_code player_id (ok out) hub = (
    ok (word_reply out.outcome out.round.winner_id),
    if is_won out.outcome then won_word room_code player_id out hub else hub,
  )

  unfoldable pub cast : Text → Text → Room × (Option Text × Bool) → Hub → Handled
  cast room_code voter_id (room, (dancer_id, changed)) hub = (
    ok (vote_reply dancer_id),
    emit_vote_mine room.code voter_id dancer_id
        (if changed then publish_room u m room hub else hub),
  )

  unfoldable pub back_to_lobby : Room × List Text → Hub → Handled
  back_to_lobby (room, cleared_voter_ids) hub = (
    ok (room_reply (to_room_dto room m.now)),
    tell_voters room.code cleared_voter_ids (publish_room u m room (stop_race u m room.code hub)),
  )

  unfoldable pub relayed : Text → Text → WebRtcSignal → Hub → Handled
  relayed room_code from signal hub = elim (require_valid_signal from signal) [
    | err e ↦ (err e, hub)
    | ok to ↦
        if any (λ (s : Socket). is_same s.player_id to) (in_channel room_code hub.sockets)
        then (ok null_reply, emit (to_channel (player_channel to)) (signal_relayed signal) hub)
        else (throw player_not_in_room, hub)
  ]

  unfoldable pub chatted : Result ChatMessage → Hub → Handled
  chatted (err e) hub = (err e, hub)
  chatted (ok message) hub = (
    ok (chat_reply message),
    emit (to_channel message.room_code) (ClientEvents.chat_message message) hub,
  )

  unfoldable pub left : Result (Option Room × UseCases.Departure) × Hub → Handled
  left (err e, hub) = (err e, hub)
  left (ok (none, departure), hub) = (ok (left_reply none), hub)
  left (ok (some room, departure), hub) = (ok (left_reply (some (to_room_dto room m.now))), hub)

  -- The events of a socket that acts as `player` in `room_code`. room:join is not one of them.
  unfoldable pub act : Socket → Text → Text → ClientEvent → Hub → Handled
  unfolding kicked submitted_word cast back_to_lobby relayed chatted left
  act socket room_code player (ClientEvents.role_select _ _ role) hub =
      after_rooms (Commands.select_role u room_code player role hub.rooms) hub published
  act socket room_code player (ClientEvents.player_ready _ _ ready) hub =
      after_rooms (Commands.set_ready u room_code player ready hub.rooms) hub published
  act socket room_code player (ClientEvents.room_leave _ _) hub =
      left (leave_seat u m room_code player hub)
  act socket room_code player (ClientEvents.player_kick _ _ wanted) hub =
      after_rooms (Commands.kick_player u room_code player wanted m.now m.random hub.rooms) hub
        (kicked (named wanted))
  act socket room_code player (ClientEvents.battle_start _ _ dancer_ids) hub =
      after_rooms (Commands.start_battle u room_code player dancer_ids m.start hub.rooms) hub
        (λ room. started_or_published (room, true))
  act socket room_code player (ClientEvents.word_submit _ _ round_id attempt) hub =
      let (r, races) =
        submit_word u room_code player round_id attempt m.now hub.races hub.races (λ x. x) in
      submitted_word room_code player r (record hub { races = races })
  act socket room_code player (ClientEvents.song_challenge_start _ _) hub =
      after_rooms (Commands.start_song_challenge u room_code player m.challenge hub.rooms) hub
        published
  act socket room_code player (ClientEvents.song_challenge_submit _ _ attempt) hub =
      after_rooms
        (kept_rooms
          (Commands.submit_song_phrase u room_code player attempt m.now m.random hub.rooms))
        hub
        (λ (room, outcome) after.
          (ok (phrase_reply (to_room_dto room m.now) outcome), publish_room u m room after))
  act socket room_code player (ClientEvents.song_choose _ _ song_id) hub =
      after_rooms (kept_rooms (Commands.choose_song u room_code player song_id m.start hub.rooms))
        hub started_or_published
  act socket room_code player (ClientEvents.chat_send _ _ content) hub =
      chatted (send_chat_message u room_code player content m.message_id m.now hub.rooms) hub
  act socket room_code player (ClientEvents.vote_cast _ _ dancer_id) hub =
      after_rooms (kept_rooms (Commands.cast_vote u room_code player dancer_id m.now hub.rooms)) hub
        (cast room_code player)
  act socket room_code player (ClientEvents.room_rematch _ _) hub =
      after_rooms (kept_rooms (Commands.start_rematch u room_code player hub.rooms)) hub
        back_to_lobby
  act socket room_code player (ClientEvents.webrtc_ready _ _) hub =
      (ok null_reply, emit (to_others room_code socket.id) (webrtc_peer_ready player) hub)
  act socket room_code player (ClientEvents.webrtc_signal signal) hub =
      relayed room_code player signal hub
  act socket room_code player (ClientEvents.room_join _ _ _) hub = (err plain_error, hub)
