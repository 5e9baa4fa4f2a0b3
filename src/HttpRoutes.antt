-- ===== src/HttpRoutes.antt =====
-- infrastructure/http/routes.ts: the routes on rooms, the body of a leave request, and the status of
-- errors. Express is the caller: a request is its values, and an answer a status with a body.
pub mod Answers
use dance_sync_back_end.Base.{
  ℕ, Bool, true, false, not, ◌&&◌, ◌||◌, Option, none, some, List, [], ◌∷◌, nat_eq, ltb, leb,
  length, Text, text, ◌==◌, if◌then◌else◌,
}
use dance_sync_back_end.Errors.{
  DomainErrorCode, room_not_found, room_full, room_not_waiting, room_not_battling,
  battle_not_started, player_already_in_room, player_not_in_room, invalid_player,
  not_enough_players, not_enough_dancers, invalid_dancer, players_not_ready, song_not_selected,
  invalid_voter, battle_finished, room_not_finished, not_host, invalid_message,
  song_selection_in_progress, song_selection_not_active, not_challenge_participant,
  attempt_already_used, not_song_chooser, invalid_song, word_race_not_active, word_round_not_open,
  Failure, domain_error, range_error, plain_error, out_of_fuel, Result, ok, err, throw, throw_if,
  ◌>>=◌, ◌>>◌,
}
use dance_sync_back_end.Model.{
  Room, Wire, string, boolean, null, missing, other, array, Setting, whole, fraction, negative,
  not_finite, max_player_id_length,
}
use dance_sync_back_end.Identity.{Unicode, trim, require_room_code}
use dance_sync_back_end.RoomService.{has_player}
use dance_sync_back_end.RoomRepository.{Rooms, find_by_code}
use dance_sync_back_end.UseCases.{Departure, create_room}
use dance_sync_back_end.RoomDto.{RoomDto, to_room_dto}
use dance_sync_back_end.SocketHandlers.Seats.{schedule_grace, watch_new_room}
use dance_sync_back_end.SocketHandlers.Hub.{Hub, Moment, leave_seat}

unfoldable pub status_by_code : DomainErrorCode → ℕ
status_by_code room_not_found = 404
status_by_code room_full = 409
status_by_code room_not_waiting = 409
status_by_code room_not_battling = 409
status_by_code battle_not_started = 409
status_by_code player_already_in_room = 409
status_by_code player_not_in_room = 403
status_by_code invalid_player = 400
status_by_code not_enough_players = 409
status_by_code not_enough_dancers = 409
status_by_code invalid_dancer = 400
status_by_code players_not_ready = 409
status_by_code song_not_selected = 409
status_by_code invalid_voter = 403
status_by_code battle_finished = 409
status_by_code room_not_finished = 409
status_by_code not_host = 403
status_by_code invalid_message = 400
status_by_code song_selection_in_progress = 409
status_by_code song_selection_not_active = 409
status_by_code not_challenge_participant = 403
status_by_code attempt_already_used = 409
status_by_code not_song_chooser = 403
status_by_code invalid_song = 400
status_by_code word_race_not_active = 409
status_by_code word_round_not_open = 409

pub data LeaveReason : Type 0 where
  explicit pagehide : LeaveReason

-- A request body: a text, an object with `playerId` and `reason`, or another value.
pub data LeaveBody : Type 0 where
  raw : Text → LeaveBody
  fields : Wire → Wire → LeaveBody
  nothing : LeaveBody

-- JSON.parse, with `none` where it throws
abbrev pub ParsesJson : Type 0
ParsesJson = Text → Option LeaveBody

parsed_body : ParsesJson → LeaveBody → Result LeaveBody
parsed_body parse (raw s) = elim (parse s) [ none ↦ throw invalid_message | some body ↦ ok body ]
parsed_body parse body = ok body

abbrev pub player_of : LeaveBody → Wire
player_of (fields player_id reason) = player_id
player_of _ = missing

-- the default of `reason` stands for `undefined` only
abbrev pub reason_of : LeaveBody → Wire
reason_of (fields player_id missing) = string (text "explicit")
reason_of (fields player_id reason) = reason
reason_of _ = string (text "explicit")

leaving_player : Wire → Result Text
leaving_player (string id) = do
  throw_if (nat_eq (length id) 0 || ltb max_player_id_length (length id) || not (trim id == id))
      invalid_player
  ok id
leaving_player _ = throw invalid_player

leave_reason : Wire → Result LeaveReason
leave_reason (string reason) =
    if reason == text "explicit"
    then ok explicit
    else if reason == text "pagehide"
    then ok pagehide
    else throw invalid_message
leave_reason _ = throw invalid_message

unfoldable pub read_leave_request : ParsesJson → LeaveBody → Result (Text × LeaveReason)
unfolding parsed_body leaving_player leave_reason
read_leave_request parse body = do
  parsed ← parsed_body parse body
  player_id ← leaving_player (player_of parsed)
  reason ← leave_reason (reason_of parsed)
  ok (player_id, reason)

-- What reaches the error handler: what a route threw, or an error of a middleware with its `type` and
-- its numbers `status` and `statusCode`.
pub data RouteError : Type 0 where
  thrown : Failure → RouteError
  from_middleware : Bool → Option Setting → Option Setting → RouteError

-- typeof status === "number" ? status : typeof statusCode === "number" ? statusCode : null
abbrev pub status_number : Option Setting → Option Setting → Option Setting
status_number (some status) status_code = some status
status_number none status_code = status_code

unfoldable pub client_error_status : Bool → Option Setting → Option ℕ
client_error_status parse_failed (some (whole n)) =
    if leb 400 n && ltb n 500 then some n else if parse_failed then some 400 else none
client_error_status parse_failed _ = if parse_failed then some 400 else none

pub data AnswerBody : Type 0 where
  room_body : RoomDto → AnswerBody
  error_body : Option DomainErrorCode → AnswerBody
  empty_body : AnswerBody

pub record Answer : Type 0 where
  pub status : ℕ
  pub body : AnswerBody

internal_error : Answer
internal_error = record { status = 500; body = error_body none }

unfoldable pub middleware_answer : Option ℕ → Answer
unfolding internal_error
middleware_answer none = internal_error
middleware_answer (some code) = record { status = code; body = error_body none }

unfoldable pub error_handler : RouteError → Answer
unfolding internal_error status_by_code client_error_status middleware_answer
error_handler (thrown (domain_error code)) = record {
  status = status_by_code code;
  body = error_body (some code);
}
error_handler (thrown range_error) = internal_error
error_handler (thrown plain_error) = internal_error
error_handler (thrown out_of_fuel) = internal_error
error_handler (from_middleware parse_failed status status_code) =
    middleware_answer (client_error_status parse_failed (status_number status status_code))

-- next(error), if the route threw
module _ (u : Unicode) (m : Moment) where
  -- POST /api/rooms
  unfoldable pub created : ℕ → Result Room × Rooms → Hub → Answer × Hub
  created created_room_grace_ms (err e, rooms) hub =
      (error_handler (thrown e), record hub { rooms = rooms })
  created created_room_grace_ms (ok room, rooms) hub = (
    record { status = 201; body = room_body (to_room_dto room m.now) },
    record hub {
      rooms = rooms;
      seats = watch_new_room u room.code room.host_id created_room_grace_ms m.now hub.seats;
    },
  )

  unfoldable pub post_room : ℕ → Wire → Wire → List Text → Hub → Answer × Hub
  unfolding created
  post_room created_room_grace_ms host_id display_name codes hub =
      created created_room_grace_ms (create_room u host_id display_name m.now codes hub.rooms) hub

  -- GET /api/rooms/:code
  unfoldable pub get_room : Text → Hub → Answer
  get_room code hub = elim (find_by_code u code hub.rooms) [
    | none ↦ record { status = 404; body = error_body none }
    | some room ↦ record { status = 200; body = room_body (to_room_dto room m.now) }
  ]

  -- POST /api/rooms/:code/leave, by its reason
  abbrev pub left_answer {ℓ} : {B : Type ℓ} → Result B × Hub → Answer × Hub
  left_answer (ok left, hub) = (record { status = 204; body = empty_body }, hub)
  left_answer (err e, hub) = (error_handler (thrown e), hub)

  unfoldable pub leave_for : ℕ → Text → Text → LeaveReason → Hub → Answer × Hub
  leave_for pagehide_grace_ms room_code player_id explicit hub =
      left_answer (leave_seat u m room_code player_id hub)
  leave_for pagehide_grace_ms room_code player_id pagehide hub =
      elim (find_by_code u room_code hub.rooms) [
        | none ↦ (error_handler (thrown (domain_error room_not_found)), hub)
        | some room ↦
            if has_player room.players player_id
            then (
              record { status = 202; body = empty_body },
              record hub {
                seats = schedule_grace u room_code player_id pagehide_grace_ms m.now hub.seats;
              },
            )
            else (error_handler (thrown (domain_error player_not_in_room)), hub)
      ]

  abbrev pub leave_request : ParsesJson → Text → LeaveBody → Result (Text × (Text × LeaveReason))
  leave_request parse code body = do
    room_code ← require_room_code (string code)
    request ← read_leave_request parse body
    ok (u.to_upper_case room_code, request)

  unfoldable pub leave_as : ℕ → Result (Text × (Text × LeaveReason)) → Hub → Answer × Hub
  unfolding leave_for
  leave_as pagehide_grace_ms (err e) hub = (error_handler (thrown e), hub)
  leave_as pagehide_grace_ms (ok (room_code, (player_id, reason))) hub =
      leave_for pagehide_grace_ms room_code player_id reason hub

  unfoldable pub post_leave : ParsesJson → ℕ → Text → LeaveBody → Hub → Answer × Hub
  unfolding leave_as
  post_leave parse pagehide_grace_ms code body hub =
      leave_as pagehide_grace_ms (leave_request parse code body) hub
