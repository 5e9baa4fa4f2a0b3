-- ===== src/Server/RoundEnds.antt =====
-- The ends of word rounds that are announced to a room: by the timers of WordRaceScheduler.ts with the
-- broadcaster of server.ts when they expire, and by the handler of word:submit of socketHandlers.ts
-- when they are won.
pub mod Keyed
pub mod Once
pub mod Timers
use dance_sync_back_end.Base.{
  one_if, ℕ, ◌+◌, ◌≤◌, ◌≡◌, refl, Bool, true, false, ◌&&◌, Option, none, some, List, [], ◌∷◌, Text,
  ◌==◌, Option-cases, arith, inl, inr,
}
use dance_sync_back_end.Errors.{Result, ok, err}
use dance_sync_back_end.Model.{Room, string}
use dance_sync_back_end.Identity.{Unicode}
use dance_sync_back_end.RoomRepository.{Rooms}
use dance_sync_back_end.WordRaceRepository.{Races, key}
use dance_sync_back_end.UseCases.WordRaces.{SubmitWordOutput, submit_word}
use dance_sync_back_end.WordRaceScheduler.{RaceTask, run_task}
use dance_sync_back_end.SocketHandlers.ClientEvents.{ServerEvent, word_round_ended}
use dance_sync_back_end.SocketHandlers.Hub.{
  Target, to_channel, Effect, emits, Hub, Moment, publish_room, stop_race,
}
use dance_sync_back_end.SocketHandlers.Events.{is_won, pay_word_bonus, won_word, submitted_word}
use dance_sync_back_end.Server.{broadcast}

-- What touches the rounds of a planned race: a timer that runs, the submission of a player that was
-- judged on what was read earlier, with what others do to the races before it reads them again, and the
-- end of the race; and what other handlers do to the rooms.
pub data RaceEvent : Type 0 where
  runs : RaceTask → RaceEvent
  submits : Text → Text → Text → Text → Races → (Races → Races) → RaceEvent
  stops : Text → RaceEvent
  changes_rooms : Rooms → RaceEvent

abbrev pub ends_round : Text → ServerEvent → Bool
ends_round id (word_round_ended p) = p.round_id == id
ends_round id _ = false

module _ (u : Unicode) where
  abbrev pub is_channel : Text → Target → Bool
  is_channel k (to_channel channel) = key u channel == k
  is_channel k _ = false

  -- The effect is a word:round-ended of round `id` to the room `k`.
  abbrev pub is_end : Text → Text → Effect → Bool
  is_end k id (emits target event) = ends_round id event && is_channel k target
  is_end k id _ = false

  -- How many of them were emitted.
  abbrev pub ends : Text → Text → List Effect → ℕ
  ends k id [] = 0
  ends k id (e ∷ effects) = one_if (is_end k id e) + ends k id effects

  unfoldable pub happen : Moment → RaceEvent → Hub → Hub
  happen m (runs task) hub =
      let (said, (races, scheduler)) = run_task u task m.now hub.rooms hub.races hub.scheduler in
      broadcast said (record hub { races = races; scheduler = scheduler })
  happen m (submits code player round_id attempt earlier meanwhile) hub =
      let (r, races) =
        submit_word u code player (string round_id) (string attempt) m.now earlier hub.races
          meanwhile in
      (submitted_word u m code player r (record hub { races = races })).1
  happen m (stops code) hub = stop_race u m code hub
  happen m (changes_rooms rooms) hub = record hub { rooms = rooms }

  unfoldable pub happen_all : List (Moment × RaceEvent) → Hub → Hub
  unfolding happen
  happen_all [] hub = hub
  happen_all ((m, e) ∷ events) hub = happen_all events (happen m e hub)

  -- The winner of a round is announced once, and the races stay.
  pub won_word-ends :
      (m : Moment) (code player : Text) (out : SubmitWordOutput) (hub : Hub) (k id : Text)
      → (ends k id (won_word u m code player out hub).effects
          ≡ one_if ((key u code == k) && (out.round.id == id)) + ends k id hub.effects)
        × ((won_word u m code player out hub).races ≡ hub.races)
  unfolding won_word publish_room dance_sync_back_end.WordRaceMessages.round_ended_payload
  won_word-ends m code player out hub k id =
      elim (Option-cases (pay_word_bonus u m code player hub.rooms).0) [
        | inl e ↦ rw (e, won_word) (ground arith, refl)
        | inr (room, e) ↦ rw (e, won_word) (ground arith, refl)
      ]
