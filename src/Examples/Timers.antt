-- ===== src/Examples/Timers.antt =====
-- Timers of rooms and of seats, and the deadline of the battle.
use dance_sync_back_end.Base.{
  ◌+◌, ◌≡◌, refl, some, [], ◌∷◌, List, Text, text, text_discrete, if◌then◌else◌, ◌==◌, arith, ℕ,
}
use dance_sync_back_end.Model.{Room, spectator}
use dance_sync_back_end.Timeouts.{no_timeouts}
use dance_sync_back_end.Timeouts.Synced.{IsSynced}
use dance_sync_back_end.RoomTimers.{song_challenge, song_choose, battle_end}
use dance_sync_back_end.Identity.RoomCodes.{generate_room_code}
use dance_sync_back_end.RoomTimers.Keys.{IsPlain, generate_room_code-IsPlain}
use dance_sync_back_end.RoomTimers.Refinement.{
  TimerCall, sets, clears, clears_room, call_all, view, meant_all, call_all-meant,
}
use dance_sync_back_end.SocketHandlers.Arming.{
  Deadline, expires_challenge, finishes_battle, Arming, arm_all,
}
use dance_sync_back_end.SocketHandlers.Arming.Follows.{Follows}
use dance_sync_back_end.SocketHandlers.Arming.Newest.{Among, IsNewest, arm_all-Follows}
use dance_sync_back_end.SocketHandlers.Seats.{Seats, seat_key, schedule_grace}
use dance_sync_back_end.SocketHandlers.Seats.Graces.{
  IsNoted, grace_end, earlier, schedule_grace-earlier,
}
use dance_sync_back_end.SocketHandlers.Deadlines.{run_deadline}
use dance_sync_back_end.SocketHandlers.Deadlines.Settled.{IsSettled, run_deadline-IsSettled}
use dance_sync_back_end.SocketHandlers.Hub.{Hub, Moment, sweep}
use dance_sync_back_end.SocketHandlers.Sweeps.{sweeps, sweeps-IsCleanedUp}
use dance_sync_back_end.Examples.Samples.{plain, cid, arena, lobby, player}
use dance_sync_back_end.Examples.Hubs.{
  hub, moment, no_seats, room_code, none-IsSynced, no_seats-IsNoted,
}

-- A challenge that is set, moved and cleared with its room, and a battle of another room.
abbrev calls : List (TimerCall Deadline)
calls =
    sets room_code song_challenge 50 (expires_challenge room_code (text "c1")) 10
    ∷ sets room_code song_challenge 70 (expires_challenge room_code (text "c2")) 20
    ∷ sets (text "HALL") battle_end 90 (finishes_battle (text "HALL") (text "b2")) 30
    ∷ clears room_code song_choose
    ∷ clears_room room_code
    ∷ []

call_all-meant_example :
    IsSynced (call_all plain calls no_timeouts)
    × (view plain (call_all plain calls no_timeouts) (text "HALL") battle_end
        ≡ meant_all plain calls (view plain no_timeouts) (text "HALL") battle_end)
unfolding text_discrete
call_all-meant_example =
    call_all-meant plain calls no_timeouts (text "HALL") battle_end none-IsSynced
      (refl, (refl, (refl, (refl, (refl, tt))))) refl

hall_goes_on :
    meant_all plain calls (view plain no_timeouts) (text "HALL") battle_end
    ≡ some (90, finishes_battle (text "HALL") (text "b2"))
unfolding text_discrete
hall_goes_on = refl

-- The battle is published, and then, late, the lobby before it.
abbrev published : List (Room × ℕ)
published = (arena, 120) ∷ (record lobby { version = 2 }, 121) ∷ []

abbrev unarmed : Arming
unarmed = record { room_timers = no_timeouts; armed_versions = [] }

arm_all-Follows_example :
    (room : Room) × Among plain room published
    × Follows plain room_code room (arm_all plain published unarmed)
    × IsNewest plain room_code room published
unfolding text_discrete
arm_all-Follows_example =
    arm_all-Follows plain published room_code unarmed none-IsSynced (refl, (refl, tt)) refl refl
      refl

-- cid's page is hidden (a grace of 3) while the grace of the disconnect (15) is pending.
abbrev waiting : Seats
waiting = schedule_grace plain room_code cid 15 150 no_seats

schedule_grace-earlier_example :
    IsNoted (schedule_grace plain room_code cid 3 151 waiting)
    × ((k : Text)
        → grace_end (schedule_grace plain room_code cid 3 151 waiting) k ≡ (
            if seat_key plain room_code cid == k
            then some (earlier (grace_end waiting k) (151 + 3))
            else grace_end waiting k))
schedule_grace-earlier_example =
    schedule_grace-earlier plain room_code cid 3 151 waiting
      (schedule_grace-earlier plain room_code cid 15 150 no_seats no_seats-IsNoted).0

abbrev song_over : Moment
song_over = record moment { now = 200 }

run_deadline-IsSettled_example :
    IsSettled plain song_over battle_end arena
      (run_deadline plain song_over (finishes_battle room_code (text "b1")) hub).rooms
unfolding text_discrete
run_deadline-IsSettled_example =
    run_deadline-IsSettled plain song_over battle_end arena 200
      (finishes_battle room_code (text "b1")) hub (λ e. absurd (ground (arith, e))) (λ n h. h) refl
      refl (omega arith)

-- Only cid is left, and not connected.
abbrev last_room : Room
last_room = record arena { players = player spectator cid ∷ [] }

abbrev deserted : Hub
deserted = record hub { rooms = (room_code, last_room) ∷ []; sockets = [] }

abbrev at : ℕ → Moment
at now = record moment { now = now }

-- The sweeps come at 100, 105 and 110, and at 116, when the 15 of the grace have passed.
sweeps-IsCleanedUp_example :
    ((sweeps plain 15 (at 100 ∷ at 105 ∷ at 110 ∷ []) deserted).rooms ≡ (room_code, last_room) ∷ [])
    × ((sweep plain (at 116) 15 (sweeps plain 15 (at 100 ∷ at 105 ∷ at 110 ∷ []) deserted)).rooms
        ≡ [])
unfolding dance_sync_back_end.SocketHandlers.Sockets.is_bound
sweeps-IsCleanedUp_example =
    sweeps-IsCleanedUp plain 15 last_room (player spectator cid) (at 100) (at 116)
      (at 105 ∷ at 110 ∷ []) deserted refl refl
      (record { unbound = refl; no_grace = refl; not_new = refl }) refl
      (omega arith, (omega arith, tt)) (omega arith)

-- Each byte is taken modulo the 32 characters.
code_made : generate_room_code (0 ∷ 1 ∷ 33 ∷ 200 ∷ 255 ∷ 24 ∷ []) ≡ text "ABBJ92"
unfolding generate_room_code
code_made = refl

code_made-IsPlain : IsPlain plain (generate_room_code (0 ∷ 1 ∷ 33 ∷ 200 ∷ 255 ∷ 24 ∷ []))
code_made-IsPlain = generate_room_code-IsPlain plain (0 ∷ 1 ∷ 33 ∷ 200 ∷ 255 ∷ 24 ∷ []) refl
