-- ===== src/SocketHandlers/Sockets.antt =====
-- The sockets of socketHandlers.ts: the identity that room:join bound to each (SocketData of
-- events.ts), the channels it is in, and who an event may act as.
pub mod Bindings
use dance_sync_back_end.Base.{
  ℕ, ◌≡◌, Bool, true, false, not, ◌&&◌, ◌||◌, Option, none, some, List, [], ◌∷◌, ◌++◌, map, filter,
  any, Text, text, ◌==◌, includes, if◌then◌else◌,
}
use dance_sync_back_end.Errors.{Result, ok, throw, throw_if, player_not_in_room, ◌>>=◌, ◌>>◌}
use dance_sync_back_end.Model.{Wire, string, boolean, null, missing, other, array}
use dance_sync_back_end.Identity.{Unicode}

pub record Socket : Type 0 where
  pub id : Text
  pub player_id : Option Text
  pub room_code : Option Text
  pub channels : List Text

abbrev pub player_channel : Text → Text
player_channel player_id = text "player:" ++ player_id

abbrev pub is_same : Option Text → Text → Bool
is_same none b = false
is_same (some a) b = a == b

-- An empty text is falsy.
abbrev pub truthy : Option Text → Option Text
truthy none = none
truthy (some []) = none
truthy (some (c ∷ s)) = some (c ∷ s)

abbrev pub leave_channel : Option Text → List Text → List Text
leave_channel none channels = channels
leave_channel (some channel) channels = filter (λ c. not (c == channel)) channels

abbrev pub channel_of_player : Option Text → Option Text
channel_of_player none = none
channel_of_player (some player_id) = some (player_channel player_id)

unfoldable pub unbind_socket : Socket → Socket
unbind_socket socket = record socket {
  room_code = none;
  player_id = none;
  channels =
      leave_channel (channel_of_player (truthy socket.player_id))
        (leave_channel (truthy socket.room_code) socket.channels);
}

-- The sockets in a channel: io.in(channel).fetchSockets()
abbrev pub in_channel : Text → List Socket → List Socket
in_channel channel = filter (λ (s : Socket). includes s.channels channel)

unfoldable pub is_bound : Text → Text → List Socket → Bool
is_bound room_code player_id sockets =
    any (λ (s : Socket). is_same s.player_id player_id) (in_channel room_code sockets)

module _ (u : Unicode) where
  abbrev pub same_code : Option Text → Text → Bool
  same_code none room_code = false
  same_code (some bound) room_code = u.to_upper_case bound == u.to_upper_case room_code

  -- A socket that unbindPlayer detaches.
  abbrev pub is_bound_to : Text → Text → Socket → Bool
  is_bound_to room_code player_id s =
      same_code (truthy s.room_code) room_code && is_same s.player_id player_id

  unfoldable pub unbind_player : Text → Text → List Socket → List Socket
  unfolding unbind_socket
  unbind_player room_code player_id sockets =
      map (λ s. if is_bound_to room_code player_id s then unbind_socket s else s) sockets

  -- The room and player that were joined, against what the event says.
  check_seat : Text → Text → Wire → Wire → Result (Text × Text)
  check_seat joined_room joined_player (string room_code) (string player_id) = do
    throw_if
        (not (u.to_upper_case room_code == u.to_upper_case joined_room)
          || not (player_id == joined_player))
        player_not_in_room
    ok (joined_room, joined_player)
  check_seat joined_room joined_player room_code player_id = throw player_not_in_room

  joined_seat : Option Text → Option Text → Wire → Wire → Result (Text × Text)
  joined_seat (some room) (some player) room_code player_id =
      check_seat room player room_code player_id
  joined_seat joined_room joined_player room_code player_id = throw player_not_in_room

  -- The canonical code of the joined room, with the player that the socket acts as.
  unfoldable pub require_own_seat : Socket → Wire → Wire → Result (Text × Text)
  unfolding joined_seat check_seat
  require_own_seat socket room_code player_id =
      joined_seat (truthy socket.room_code) (truthy socket.player_id) room_code player_id
