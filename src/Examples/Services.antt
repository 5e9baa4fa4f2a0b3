-- ===== src/Examples/Services.antt =====
-- Requests over HTTP, and an evening of the whole service.
use dance_sync_back_end.Errors.{ok}
use dance_sync_back_end.Base.{
  map, ◌≡◌, ◌≤◌, ◌<◌, ◌⊎◌, refl, true, false, none, some, [], ◌∷◌, List, Text, text, text_discrete,
  arith, ℕ,
}
use dance_sync_back_end.Model.{string, whole, boolean}
use dance_sync_back_end.RoomRepository.Stored.{AllValid}
use dance_sync_back_end.MatchRecordService.{record_match_result}
use dance_sync_back_end.SocketHandlers.ClientEvents.{
  ClientEvent, room_join, role_select, player_ready,
}
use dance_sync_back_end.SocketHandlers.Hub.{Hub, Moment}
use dance_sync_back_end.HttpRoutes.{
  RouteError, from_middleware, error_handler, ParsesJson, LeaveBody, fields, raw, pagehide,
  leave_request, post_leave,
}
use dance_sync_back_end.HttpRoutes.Answers.{
  IsClientError, error_handler_status, IsGraceful, post_leave-IsGraceful,
}
use dance_sync_back_end.HttpMatchResultPublisher.{
  FetchAnswer, with_status, publish, refused-IsTriedOnce,
}
use dance_sync_back_end.Server.{
  Graces, Happening, connects, receives, disconnects, grace_due, posts_room, shuts_down, step, run,
}
use dance_sync_back_end.Server.Commands.{Serves}
use dance_sync_back_end.Server.Runs.{run-Serves, run-AllValid}
use dance_sync_back_end.Server.Timed.{IsTimed}
use dance_sync_back_end.Server.TimedRuns.{run-IsTimed}
use dance_sync_back_end.Server.Closing.{IsQuiet, shuts_down-IsQuiet}
use dance_sync_back_end.Examples.Samples.{plain, ana, bea, cid}
use dance_sync_back_end.Examples.Clients.{closed_arena, match_record, recorded}
use dance_sync_back_end.Examples.Hubs.{hub, moment, room_code, none-IsSynced, no_seats-IsNoted}

-- A body that express.json cannot parse.
abbrev unparsable : RouteError
unparsable = from_middleware true (some (whole 400)) none

error_handler_status_example :
    (IsClientError unparsable
      × (400 ≤ (error_handler unparsable).status)
      × ((error_handler unparsable).status < 500))
    ⊎ (¬ IsClientError unparsable × ((error_handler unparsable).status ≡ 500))
error_handler_status_example = error_handler_status unparsable

-- The beacon of cid's page: JSON as text.
abbrev parse : ParsesJson
parse body = some (fields (string cid) (string (text "pagehide")))

cid_asks :
    leave_request plain moment parse room_code (raw (text "{}")) ≡ ok (room_code, (cid, pagehide))
unfolding text_discrete dance_sync_back_end.Identity.require_room_code
    dance_sync_back_end.Identity.trim dance_sync_back_end.Identity.trim_start
    dance_sync_back_end.Identity.trim_end dance_sync_back_end.Identity.is_space
    dance_sync_back_end.HttpRoutes.read_leave_request
cid_asks = refl

cid_answered : (post_leave plain moment parse 3000 room_code (raw (text "{}")) hub).0.status ≡ 202
unfolding text_discrete post_leave dance_sync_back_end.Identity.require_room_code
    dance_sync_back_end.Identity.trim dance_sync_back_end.Identity.trim_start
    dance_sync_back_end.Identity.trim_end dance_sync_back_end.Identity.is_space
    dance_sync_back_end.HttpRoutes.read_leave_request dance_sync_back_end.HttpRoutes.leave_as
    dance_sync_back_end.HttpRoutes.leave_for dance_sync_back_end.RoomRepository.find_by_code
cid_answered = refl

post_leave-IsGraceful_example :
    IsGraceful plain moment room_code cid 3000 hub
      (post_leave plain moment parse 3000 room_code (raw (text "{}")) hub).1
post_leave-IsGraceful_example =
    post_leave-IsGraceful plain moment parse 3000 room_code (raw (text "{}")) hub room_code cid
      no_seats-IsNoted cid_asks cid_answered

-- users-service does not accept the document.
abbrev answers : ℕ → FetchAnswer
answers k = with_status 400

refused-IsTriedOnce_example :
    record_match_result 3 500 (λ k. publish (answers k)) closed_arena
    ≡ record { delivered = false; tries = 1; waits = [] }
refused-IsTriedOnce_example =
    refused-IsTriedOnce 3 500 400 answers closed_arena match_record recorded refl (omega arith)
      (omega arith) (λ e. omega (arith, e)) (λ e. omega (arith, e))

abbrev graces : Graces
graces = record { disconnect_ms = 15000; pagehide_ms = 3000 }

abbrev empty_hub : Hub
empty_hub = record hub { rooms = []; sockets = [] }

abbrev joins : Text → Text → ClientEvent
joins id name = room_join (string room_code) (string id) (string name)

-- ana creates a room over HTTP, ana and bea join it, bea dances and is ready, her connection drops and
-- her grace runs out.
abbrev happenings : List Happening
happenings =
    posts_room (string ana) (string (text "Ana")) (room_code ∷ [])
    ∷ connects (text "s1")
    ∷ receives (text "s1") true (joins ana (text "Ana"))
    ∷ connects (text "s2")
    ∷ receives (text "s2") true (joins bea (text "Bea"))
    ∷ receives (text "s2") true
        (role_select (string room_code) (string bea) (string (text "dancer")))
    ∷ receives (text "s2") false (player_ready (string room_code) (string bea) (boolean true))
    ∷ disconnects (text "s2")
    ∷ grace_due 0
    ∷ []

abbrev evening : List (Moment × Happening)
evening = map (λ h. (moment, h)) happenings

run-AllValid_example : AllValid (run plain graces evening empty_hub).rooms
run-AllValid_example = run-AllValid plain graces evening empty_hub tt

run-Serves_example : Serves plain [] (run plain graces evening empty_hub).rooms
run-Serves_example = run-Serves plain graces evening empty_hub

all-IsTimed : IsTimed hub.arming hub.seats
all-IsTimed = record { rooms = none-IsSynced; graces = no_seats-IsNoted; new_rooms = none-IsSynced }

run-IsTimed_example :
    IsTimed (run plain graces evening empty_hub).arming (run plain graces evening empty_hub).seats
run-IsTimed_example = run-IsTimed plain graces evening empty_hub all-IsTimed

shuts_down-IsQuiet_example :
    IsQuiet (step plain graces moment shuts_down hub)
    × ((step plain graces moment shuts_down hub).rooms ≡ hub.rooms)
shuts_down-IsQuiet_example = shuts_down-IsQuiet plain graces moment hub all-IsTimed
