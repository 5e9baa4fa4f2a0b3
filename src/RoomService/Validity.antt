-- ===== src/RoomService/Validity.antt =====
-- The invariant of a room, on which the operations of RoomService.ts and SongSelectionService.ts rest.
pub mod Lobby
pub mod Starting
pub mod Selections
pub mod Choices
pub mod Withdrawals
pub mod Departures
pub mod Battles
use dance_sync_back_end.Base.{
  ℕ, suc, ◌+◌, ◌≤◌, ◌≡◌, refl, subst, Bool, true, false, ◌⊎◌, inl, inr, Option, none, some, List,
  [], ◌∷◌, map, Text, ◌==◌, includes, Distinct, Dict, keys, arith, length, All, is_some,
}
use dance_sync_back_end.Model.{
  Room, Player, Battle, BattleResult, RoomStatus, waiting, battling, finished, is_waiting,
  is_battling, is_finished, SongSelection, SongSelectionPhase, typing, choosing, done, max_players,
  min_dancers_per_battle,
}
use dance_sync_back_end.RoomService.{has_player, spectators_of}
use dance_sync_back_end.RoomService.Players.{ids}

-- A vote comes from a spectator in the room and names a dancer still in the battle.
abbrev pub IsVote : Room → Battle → (Text × Text) → Type 0
IsVote room battle (voter, dancer_id) =
    (has_player room.spectators voter ≡ true) × (includes battle.dancer_ids dancer_id ≡ true)

-- A dancer of the battle is in the room and is no spectator.
abbrev pub IsCompeting : Room → Text → Type 0
IsCompeting room id = (has_player room.players id ≡ true) × (has_player room.spectators id ≡ false)

pub record IsRunning (room : Room) (battle : Battle) : Type 0 where
  pub distinct : Distinct battle.dancer_ids
  pub enough : min_dancers_per_battle ≤ length battle.dancer_ids
  pub competing : All (IsCompeting room) battle.dancer_ids
  pub votes : All (IsVote room battle) battle.votes
  pub one_each : Distinct (keys battle.votes)
  pub unsettled : battle.result ≡ none

abbrev pub Phase : Room → RoomStatus → Type 0
Phase room waiting = (room.battle ≡ none) × (room.dancers ≡ none)
Phase room battling = (b : Battle) × (room.battle ≡ some b) × IsRunning room b
Phase room finished =
    (b : Battle) × (r : BattleResult) × (room.battle ≡ some b)
    × (b.result ≡ some r)
    × (room.last_result ≡ some r)

abbrev pub ChoicePhase : List Player → SongSelection → SongSelectionPhase → Type 0
ChoicePhase players s typing = (s.chooser_id ≡ none) × (s.choose_deadline ≡ none)
ChoicePhase players s choosing =
    (c : Text) × (s.chooser_id ≡ some c)
    × (includes s.participant_ids c ≡ true)
    × (has_player players c ≡ true)
    × (is_some s.choose_deadline ≡ true)
ChoicePhase players s done = s.choose_deadline ≡ none

-- Whoever has the choice took part in the challenge, is in the room and has a deadline.
abbrev pub IsSelection : List Player → Option SongSelection → Type 0
IsSelection players none = Unit {0}
IsSelection players (some s) = ChoicePhase players s s.phase

pub record IsValid (room : Room) : Type 0 where
  pub distinct : Distinct (ids room.players)
  pub few : length room.players ≤ max_players
  pub hosted : has_player room.players room.host_id ≡ true
  pub seated : room.spectators ≡ spectators_of room.players
  pub phase : Phase room room.status
  pub selection : IsSelection room.players room.song_selection

-- A room in order, or none.
abbrev pub IsValidIf : Option Room → Type 0
IsValidIf none = Unit {0}
IsValidIf (some room) = IsValid room

pub waiting-Phase :
    (room : Room) (s : RoomStatus)
    → is_waiting s ≡ true
    → Phase room s
    → (room.battle ≡ none) × (room.dancers ≡ none)
waiting-Phase room waiting h p = p
waiting-Phase room battling h p = cc
waiting-Phase room finished h p = cc

pub to_waiting-Phase :
    (room : Room) (s : RoomStatus)
    → is_waiting s ≡ true
    → (room.battle ≡ none) × (room.dancers ≡ none)
    → Phase room s
to_waiting-Phase room waiting h p = p
to_waiting-Phase room battling h p = cc
to_waiting-Phase room finished h p = cc

pub battling-Phase :
    (room : Room) (s : RoomStatus) (b : Battle)
    → is_battling s ≡ true
    → room.battle ≡ some b
    → Phase room s
    → IsRunning room b
battling-Phase room waiting b h e p = cc
battling-Phase room battling b h e (c, f, r) = subst (IsRunning room) (ground arith) r
battling-Phase room finished b h e p = cc

pub to_battling-Phase :
    (room : Room) (s : RoomStatus) (b : Battle)
    → is_battling s ≡ true
    → room.battle ≡ some b
    → IsRunning room b
    → Phase room s
to_battling-Phase room waiting b h e r = cc
to_battling-Phase room battling b h e r = (b, e, r)
to_battling-Phase room finished b h e r = cc

-- A selection stays in order while its chooser stays in the room.
pub ChoicePhase-mono :
    (ps qs : List Player) (s : SongSelection) (phase : SongSelectionPhase)
    → ((c : Text) → s.chooser_id ≡ some c → has_player ps c ≡ true → has_player qs c ≡ true)
    → ChoicePhase ps s phase
    → ChoicePhase qs s phase
ChoicePhase-mono ps qs s typing keep h = h
ChoicePhase-mono ps qs s choosing keep (c, e, p, q, d) = (c, e, p, keep c e q, d)
ChoicePhase-mono ps qs s done keep h = h

pub IsSelection-mono :
    (ps qs : List Player) (s : Option SongSelection)
    → ((c : Text) → has_player ps c ≡ true → has_player qs c ≡ true)
    → IsSelection ps s
    → IsSelection qs s
IsSelection-mono ps qs none keep h = tt
IsSelection-mono ps qs (some s) keep h = ChoicePhase-mono ps qs s s.phase (λ c _ q. keep c q) h
