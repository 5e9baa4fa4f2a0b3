-- ===== src/SocketHandlers/ClientEvents.antt =====
-- infrastructure/ws/events.ts: what clients send, with its payload, and what the server sends. A field
-- whose type a handler or a command checks is any value (Wire); the others are texts.
use dance_sync_back_end.Base.{Option, Text}
use dance_sync_back_end.Errors.{DomainErrorCode}
use dance_sync_back_end.Model.{Wire, SubmitWordOutcome}
use dance_sync_back_end.SongSelectionService.{SubmitOutcome}
use dance_sync_back_end.RoomDto.{RoomDto}
use dance_sync_back_end.UseCases.Chat.{ChatMessage}
use dance_sync_back_end.WordRaceMessages.{WordRoundStartedPayload, WordRoundEndedPayload}

-- A session description: its `type` and `sdp`.
pub record SessionDescription : Type 0 where
  pub kind : Wire
  pub sdp : Wire

-- `description` and `candidate` are `none` unless they are objects.
pub record WebRtcSignal : Type 0 where
  pub room_code : Wire
  pub from : Wire
  pub to : Wire
  pub negotiation_id : Wire
  pub description : Option SessionDescription
  pub candidate : Option Wire

pub data ClientEvent : Type 0 where
  room_join : Wire → Wire → Wire → ClientEvent
  room_leave : Wire → Wire → ClientEvent
  role_select : Wire → Wire → Wire → ClientEvent
  player_ready : Wire → Wire → Wire → ClientEvent
  player_kick : Wire → Wire → Wire → ClientEvent
  battle_start : Wire → Wire → Wire → ClientEvent
  song_challenge_start : Wire → Wire → ClientEvent
  song_challenge_submit : Wire → Wire → Wire → ClientEvent
  song_choose : Wire → Wire → Text → ClientEvent
  chat_send : Wire → Wire → Wire → ClientEvent
  vote_cast : Wire → Wire → Wire → ClientEvent
  room_rematch : Wire → Wire → ClientEvent
  word_submit : Wire → Wire → Wire → Wire → ClientEvent
  webrtc_ready : Wire → Wire → ClientEvent
  webrtc_signal : WebRtcSignal → ClientEvent

-- The code of a DomainError, or INTERNAL_ERROR.
abbrev pub ErrorCode : Type 0
ErrorCode = Option DomainErrorCode

pub data ServerEvent : Type 0 where
  room_updated battle_started battle_finished : RoomDto → ServerEvent
  chat_message : ChatMessage → ServerEvent
  webrtc_peer_ready : Text → ServerEvent
  signal_relayed : WebRtcSignal → ServerEvent
  word_round_started : WordRoundStartedPayload → ServerEvent
  word_round_ended : WordRoundEndedPayload → ServerEvent
  room_kicked : Text → ServerEvent
  vote_mine : Text → Option Text → ServerEvent
  error_domain : ErrorCode → ServerEvent

-- The data of an acknowledgement.
pub data Reply : Type 0 where
  room_reply : RoomDto → Reply
  left_reply : Option RoomDto → Reply
  phrase_reply : RoomDto → SubmitOutcome → Reply
  word_reply : SubmitWordOutcome → Option Text → Reply
  chat_reply : ChatMessage → Reply
  vote_reply : Option Text → Reply
  null_reply : Reply
