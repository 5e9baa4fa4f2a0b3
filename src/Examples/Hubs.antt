-- ===== src/Examples/Hubs.antt =====
-- The service in the middle of the battle of the samples: two sockets, of ana and of cid.
use dance_sync_back_end.Base.{arith, refl, none, some, [], ◌∷◌, Text, text, ◌/◌, ◌*◌}
use dance_sync_back_end.Model.{whole}
use dance_sync_back_end.Timeouts.{Timeouts, no_timeouts}
use dance_sync_back_end.Timeouts.Synced.{IsSynced}
use dance_sync_back_end.SocketHandlers.Seats.{Seats}
use dance_sync_back_end.SocketHandlers.Seats.Graces.{IsNoted}
use dance_sync_back_end.SocketHandlers.Sockets.{Socket, player_channel}
use dance_sync_back_end.SocketHandlers.Hub.{Hub, Moment}
use dance_sync_back_end.Examples.Samples.{ana, cid, arena}
use dance_sync_back_end.Examples.Stores.{options}

abbrev pub room_code : Text
room_code = text "ROOM"

abbrev pub socket_of : Text → Socket
socket_of id = record {
  id = id;
  player_id = some id;
  room_code = some room_code;
  channels = player_channel id ∷ room_code ∷ id ∷ [];
}

abbrev pub no_seats : Seats
no_seats = record {
  graces = no_timeouts;
  grace_deadlines = [];
  new_rooms = no_timeouts;
  unbound_since = [];
}

abbrev pub hub : Hub
hub = record {
  rooms = (room_code, arena) ∷ [];
  races = [];
  sockets = socket_of ana ∷ socket_of cid ∷ [];
  seats = no_seats;
  arming = record { room_timers = no_timeouts; armed_versions = [] };
  scheduler = record { timers = []; pending = []; next_number = 0 };
  effects = [];
}

-- A moment, with the draws and settings that the handlers read in it.
abbrev pub moment : Moment
moment = record {
  now = 150;
  random = λ n. 0;
  start = options;
  challenge = record {
    now = 150;
    duration_ms = 15;
    choose_ms = whole 20;
    random = λ n. 0;
    phrases = text "vamos" ∷ [];
    songs = [];
    challenge_id = text "c2";
  };
  race = record {
    rounds = 2;
    window_ms = 10;
    min_gap_ms = 20;
    fallback_duration_ms = 40;
    start_margin = λ n. n / 10;
    end_margin = λ n. n * 85 / 100;
    draws = λ k n. 0;
    words = text "ritmo" ∷ text "paso" ∷ [];
    offsets_ms = none;
  };
  message_id = text "m1";
}

pub none-IsSynced {ℓ} : {A : Type ℓ} → IsSynced {A = A} no_timeouts
none-IsSynced = record {
  kept = λ k h e. absurd (ground (arith, e));
  known = λ h p e. absurd (ground (arith, e));
  distinct = tt;
}

pub no_seats-IsNoted : IsNoted no_seats
unfolding dance_sync_back_end.Timeouts.timer_at
no_seats-IsNoted = record { synced = none-IsSynced; noted = λ k. refl }
