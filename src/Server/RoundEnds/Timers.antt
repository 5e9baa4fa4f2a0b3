-- ===== src/Server/RoundEnds/Timers.antt =====
-- What a timer of WordRaceScheduler.ts announces of the end of a word round, and leaves alive.
use dance_sync_back_end.Base.{
  ℕ, ◌+◌, ◌≤◌, Text, lookup-remove, arith, inl, inr, Option-cases, Bool-cases,
}
use dance_sync_back_end.Identity.{Unicode}
use dance_sync_back_end.RoomRepository.{Rooms, find_by_code}
use dance_sync_back_end.WordRaceRepository.{
  Races, find_round, key, expire_round, delete_race, find_race,
}
use dance_sync_back_end.WordRaceRepository.FoundRounds.{round_in}
use dance_sync_back_end.WordRaceRepository.Settling.{RaceStep, live, step-live, take_step}
use dance_sync_back_end.UseCases.WordRaces.{
  OpenWordRoundOutput, battle_over, not_scheduled, is_in_battle, open_word_round, expire_word_round,
  stop_word_race, round_opened,
}
use dance_sync_back_end.WordRaceScheduler.{Scheduler, after_expire, after_open, stop}
use dance_sync_back_end.SocketHandlers.Hub.{Hub}
use dance_sync_back_end.Server.{broadcast}
use dance_sync_back_end.Server.RoundEnds.{ends}
use dance_sync_back_end.Server.RoundEnds.Keyed.{
  IsKeyed, lookup-IsKeyed, expire_round-IsKeyed, delete_race-IsKeyed, expire_round-id,
}

module _ (u : Unicode) where
  pub delete-live :
      (code k id : Text) (races : Races)
      → live (round_in k id (delete_race u code races)) ≤ live (round_in k id races)
  unfolding delete_race
  delete-live code k id races = ground (arith, lookup-remove (key u code) k races)

  pub open_word_round-live :
      (k id code round_id : Text) (rooms : Rooms) (races : Races)
      → live (round_in k id (open_word_round u code round_id rooms races races).1)
        ≤ live (round_in k id races)
  unfolding open_word_round take_step
  open_word_round-live k id code round_id rooms races =
      elim (Option-cases (find_race u code races)) [
        | inl e ↦ rw (e, open_word_round) (omega arith)
        | inr (race, e) ↦ elim (Option-cases (find_by_code u code rooms)) [
          | inl f ↦ rw (e, f, open_word_round) (omega arith)
          | inr (room, f) ↦ elim (Bool-cases (is_in_battle room race)) [
            | inl g ↦
                rw (e, f, g, open_word_round)
                  (omega (arith, step-live u (RaceStep.opens code round_id) races k id))
            | inr g ↦ rw (e, f, g, open_word_round) (omega arith)
          ]
        ]
      ]

  -- What an event may announce, and leave alive.
  abbrev pub Uses : Text → Text → Hub → Hub → Type 0
  Uses k id before after =
      (ends u k id after.effects + live (round_in k id after.races)
        ≤ ends u k id before.effects + live (round_in k id before.races))
      × IsKeyed u after.races

  -- A round that opens is not announced as ended.
  pub opens-Uses :
      (k id code round_id : Text) (now : ℕ) (out : OpenWordRoundOutput) (races : Races)
      (s : Scheduler) (hub : Hub)
      → live (round_in k id races) ≤ live (round_in k id hub.races)
      → IsKeyed u races
      → Uses k id hub (
          let (said, (after, s')) = after_open u code round_id now (out, races) s in
          broadcast said (record hub { races = after; scheduler = s' }))
  unfolding after_open stop stop_word_race
  opens-Uses k id code round_id now (round_opened round race) races s hub h keyed =
      (omega arith, keyed)
  opens-Uses k id code round_id now battle_over races s hub h keyed =
      (omega (arith, delete-live code k id races), delete_race-IsKeyed u code id races keyed)
  opens-Uses k id code round_id now not_scheduled races s hub h keyed = (omega arith, keyed)

  -- An expiry is announced for a round that the store expired.
  pub expires-Uses :
      (k id code round_id : Text) (now : ℕ) (s : Scheduler) (hub : Hub)
      → IsKeyed u hub.races
      → Uses k id hub (
          let (said, (after, s')) =
            after_expire u code round_id now
              (expire_word_round u code round_id now hub.races (λ r. r))
              s in
          broadcast said (record hub { races = after; scheduler = s' }))
  unfolding after_expire expire_word_round take_step find_race
      dance_sync_back_end.WordRaceMessages.round_ended_payload
  expires-Uses k id code round_id now s hub keyed =
      let after = (expire_round u code round_id now hub.races).1 in
      let later = expire_round-IsKeyed u code round_id hub.races keyed now in
      let spent = step-live u (RaceStep.expires code round_id now) hub.races k id in
      elim (Option-cases (expire_round u code round_id now hub.races).0) [
        | inl e ↦ elim (Option-cases (find_race u code after)) [
          | inl f ↦ rw (e, f) (ground (arith, spent), later)
          | inr (race, f) ↦ elim (Option-cases (find_round race.rounds round_id)) [
            | inl g ↦ rw (e, f, g) (ground (arith, spent), later)
            | inr (round, g) ↦ rw (e, f, g) (ground (arith, spent), later)
          ]
        ]
        | inr (round, e) ↦ elim (Option-cases (find_race u code after)) [
          | inl f ↦ rw (e, f) (ground (arith, spent), later)
          | inr (race, f) ↦
              let room = lookup-IsKeyed u (key u code) after race later f in
              let this = expire_round-id u code round_id now hub.races round e in
              rw (e, f) (ground (arith, spent, room, this, e), later)
        ]
      ]
