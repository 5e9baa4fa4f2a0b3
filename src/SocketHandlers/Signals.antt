-- ===== src/SocketHandlers/Signals.antt =====
-- requireValidSignal of socketHandlers.ts: which WebRTC signaling messages are relayed.
use dance_sync_back_end.Base.{
  Bool, true, false, not, ◌&&◌, ◌||◌, none, some, [], ◌∷◌, is_some, Text, ◌==◌,
}
use dance_sync_back_end.Errors.{Result, ok, throw, throw_if, invalid_message, ◌>>◌}
use dance_sync_back_end.Model.{Wire, string}
use dance_sync_back_end.SocketHandlers.ClientEvents.{WebRtcSignal}

-- typeof value === "string" && value.length > 0
abbrev pub is_non_empty_string : Wire → Bool
is_non_empty_string (string []) = false
is_non_empty_string (string (c ∷ s)) = true
is_non_empty_string _ = false

abbrev pub is_string : Wire → Bool
is_string (string s) = true
is_string _ = false

-- to === from, where the sender is known to be a text
abbrev pub is_text : Wire → Text → Bool
is_text (string s) t = s == t
is_text _ t = false

abbrev pub is_bad_description : WebRtcSignal → Bool
is_bad_description signal = elim signal.description [
  | none ↦ false
  | some description ↦ not (is_string description.kind)
]

unfoldable pub require_valid_signal : Text → WebRtcSignal → Result Text
require_valid_signal from signal = elim signal.to [
  | string to ↦ do
    throw_if
        (not (is_non_empty_string (string to))
          || to == from
          || not (is_non_empty_string signal.negotiation_id)
          || (is_some signal.description && is_some signal.candidate
              || not (is_some signal.description) && not (is_some signal.candidate))
          || is_bad_description signal)
        invalid_message
    ok to
  | _ ↦ throw invalid_message
]
