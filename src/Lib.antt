-- ===== src/Lib.antt =====
-- The battle service of DanceSync (battle-service/src): rooms in which players meet, choose a song by
-- a typing challenge, dance a battle that the spectators vote on, and see the result.
--
-- Parts, and the code each one is about:
--   Base            what the modules share: Boolean tests, lists, strings (as lists of UTF-16 code
--                   units), plain objects and Maps (as association lists that keep the place of a key),
--                   and a stable sort
--   Errors          domain/errors/DomainError.ts; the outcome of a call is `ok` or `err` with the code
--   Model           domain/model/*.ts, one record for each interface, and the `unknown` values that
--                   clients send (Model/WireValues)
--   Identity        validatePlayer, uniqueDisplayName, requireRoomCode and generateRoomCode (RoomCodes)
--                   of domain/services/RoomService.ts
--   ScoringService  domain/services/ScoringService.ts: voteCounts, standings, result
--   SongSelectionService
--                   domain/services/SongSelectionService.ts and readiness.ts: start, submit and expire
--                   (Attempts), choose, autoPick and handlePlayerLeft (Choices)
--   RoomService     domain/services/RoomService.ts: the lobby, startBattle (Starting), the votes and the
--                   end of a battle (Battles), leave and kick (Departures)
--   RoomRepository  domain/ports/RoomRepository.ts, application/roomUpdates.ts and
--                   infrastructure/persistence/InMemoryRoomRepository.ts
--   WordRaceService domain/services/WordRaceService.ts: plan, with its timeline and words, and judge
--   WordRaceRepository
--                   domain/ports/WordRaceRepository.ts and
--                   infrastructure/persistence/InMemoryWordRaceRepository.ts
--   MatchRecordService
--                   domain/services/MatchRecordService.ts and application/usecases/RecordMatchResult.ts
--   RoomDto         infrastructure/serialization/roomDto.ts
--   Timeouts        setTimeout and clearTimeout of Node, with the Map of handles beside them
--   RoomTimers      infrastructure/scheduling/RoomTimers.ts
--   WordRaceMessages
--                   infrastructure/ws/wordRaceMessages.ts
--   WordRaceScheduler
--                   infrastructure/scheduling/WordRaceScheduler.ts
--   SocketHandlers  infrastructure/ws/socketHandlers.ts and events.ts: the deadlines that a state of a
--                   room arms (Arming), the graces of seats (Seats), the bindings of sockets (Sockets),
--                   the messages (ClientEvents), the shared paths and the sweep (Hub), the signaling
--                   messages (Signals), the events of a bound socket (Events), room:join, guard and
--                   disconnect (Joins), and what a deadline does (Deadlines)
--   HttpRoutes      infrastructure/http/routes.ts
--   HttpMatchResultPublisher
--                   infrastructure/http/HttpMatchResultPublisher.ts
--   Config          config/env.ts, and what server.ts makes of it for a battle (Config/Timing)
--   Server          the running service as server.ts wires it: every socket event, connection, timer,
--                   sweep and request as a step, and any sequence of them as a run; what each operation
--                   of the components keeps (Kept) is kept by every run (Steps); what it emits at the end of a word round
--                   (RoundEnds)
--   UseCases        application/usecases/*.ts: create, join and leave, the other commands on rooms
--                   (Commands), any sequence of them (Requests), the word race
--                   (WordRaces) and the chat (Chat)
--
-- A room is a record that the services map to a new one; the repository holds the rooms and runs
-- one mutation at a time. `InMemoryRoomRepository.update` awaits nothing between reading and storing,
-- so clients and timers interleave only between updates, and `Requests.serve_all`, a list of commands
-- in any order, is every run of the service. A mutation that returns the very room it was given (no
-- write) returns `none` or `same` here; a copy (structuredClone) needs no counterpart.
--
-- Names are those of the source in snake case. A call's clock reading (`now`), fresh ids (randomUUID),
-- the random index (randomInt), the random bytes and the codes that createRoom draws are arguments. The string
-- methods that rest on Unicode tables are the fields of `Identity.Unicode`, a parameter.
--
-- The word race is a second aggregate with a store of its own. Its commands make several calls of the
-- stores, so they take the store as it was at the first read, and what others do meanwhile, as
-- arguments. The margins of the song are the rounded products with floating-point ratios; they are
-- arguments too. The option offsetsMs is a list of whole numbers.
--
-- Loops: uniqueDisplayName tries the suffixes 2, 3, … on fuel, one round more than there are players,
-- each of whom can hold one candidate at most; decimal digits are made on fuel, one round more than the
-- number; createRoom draws codes from a given list. A run out of fuel is the failure `out_of_fuel`,
-- which no call of the source has. Every other loop is a recursion on a list or a count.
--
-- The state that registerSocketHandlers closes over, with the stores, is one record, `Hub`; what is
-- sent or recorded goes on its list of effects, the latest first. A handler is a function on it and
-- runs to its end, with one reading of the clock (`Moment`); Socket.IO, Express and Node are the
-- environment that decides which step comes next. Sockets, channels and timers are lists, a timer's
-- handle is the number of the call that made it, and a Set of timers of the word race the number it got
-- when it was made. The word race is wired, as server.ts does it. What Number, JSON.parse and
-- encodeURIComponent make of a text are arguments.
--
-- Not modelled: what another handler does at an await inside a handler, except between the calls of
-- a word race command; the text of error messages; the names of Object.prototype as keys of votes,
-- wordsWon and counts (an id such as "constructor"), and the order that JavaScript gives to keys
-- that look like array indices; delays above 2147483647 milliseconds, which Node cuts to one; a
-- song id in song:choose that is not a text; events whose payload is not an object; times are whole
-- milliseconds, as a Date keeps them, and so are the graces of seats and the window, gap and
-- fallback of the word race, of which the environment may also set fractions; durations in the catalog are whole seconds. Of server.ts,
-- the creation of the HTTP server, CORS, the handlers of process signals and of uncaught errors,
-- and the health route are not modelled, nor are the catalogs (domain/catalog), which are data, and
-- the Java services (users-service, api-gateway).
pub mod Base
pub mod Errors
pub mod Model
pub mod Identity
pub mod ScoringService
pub mod SongSelectionService
pub mod RoomService
pub mod RoomRepository
pub mod WordRaceService
pub mod WordRaceRepository
pub mod MatchRecordService
pub mod RoomDto
pub mod Timeouts
pub mod HttpMatchResultPublisher
pub mod HttpRoutes
pub mod Server
pub mod WordRaceMessages
pub mod WordRaceScheduler
pub mod Config
pub mod SocketHandlers
pub mod RoomTimers
pub mod UseCases
mod Examples
