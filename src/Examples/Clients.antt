-- ===== src/Examples/Clients.antt =====
-- What leaves the service: the rooms that are sent, the messages, and the matches recorded.
use dance_sync_back_end.Base.{
  Distinct, ℕ, ◌≡◌, refl, true, some, [], ◌∷◌, text, Text, Dict, nat_eq, if◌then◌else◌,
  text_discrete, ◌-◌,
}
use dance_sync_back_end.Errors.{ok}
use dance_sync_back_end.Model.{Room, Battle, finished, song_end, string, MatchRecord}
use dance_sync_back_end.Identity.{trim}
use dance_sync_back_end.RoomRepository.{Rooms, find_by_code}
use dance_sync_back_end.RoomDto.{to_room_dto}
use dance_sync_back_end.RoomDto.Privacy.{with_votes, to_room_dto_private}
use dance_sync_back_end.UseCases.Chat.{
  ChatMessage, send_chat_message, IsMessage, send_chat_message-IsMessage,
}
use dance_sync_back_end.MatchRecordService.{
  Publication, stored, failed, from_finished_room, record_match_result, record_of,
}
use dance_sync_back_end.MatchRecordService.Deliveries.{IsRetried, record_match_result-IsRetried}
use dance_sync_back_end.MatchRecordService.Records.{IsRecord, closed_room, finish_battle-IsRecord}
use dance_sync_back_end.RoomService.Battles.{finish_battle}
use dance_sync_back_end.Examples.Samples.{plain, ana, bea, duel, arena}

-- Two other voters for bea.
abbrev others : Dict Text
others = (text "eva", bea) ∷ (text "fay", bea) ∷ []

to_room_dto_example :
    to_room_dto arena 150
    ≡ to_room_dto (record arena { battle = some (with_votes duel others) }) 150
to_room_dto_example = to_room_dto_private arena duel others 150 refl (λ d h. refl)

abbrev rooms : Rooms
rooms = (text "ROOM", arena) ∷ []

abbrev hello : ChatMessage
hello = record {
  id = text "m1";
  room_code = text "ROOM";
  sender_id = ana;
  sender_name = ana;
  content = text "hello";
  sent_at = 7;
}

hello_sent :
    send_chat_message plain (text "ROOM") ana (string (text " hello ")) (text "m1") 7 rooms
    ≡ ok hello
unfolding send_chat_message find_by_code trim text_discrete
hello_sent = refl

send_chat_message_example :
    IsMessage plain (text "ROOM") ana (string (text " hello ")) (text "m1") 7 rooms hello
send_chat_message_example =
    send_chat_message-IsMessage plain (text "ROOM") ana (string (text " hello ")) (text "m1") 7
      rooms hello hello_sent

abbrev over : Battle
over = record duel {
  finished_at = some 200;
  end_reason = some song_end;
  result = some (record { standings = []; winner_id = some bea });
}

abbrev pub closed_arena : Room
closed_arena = record arena { status = finished; battle = some over }

abbrev second_try : ℕ → Publication
second_try k = if nat_eq k 2 then stored else failed

abbrev pub match_record : MatchRecord
match_record =
    record_of closed_arena over (record { standings = []; winner_id = some bea }) 200 song_end

pub recorded : from_finished_room closed_arena ≡ some match_record
unfolding from_finished_room
recorded = refl

record_match_result_example :
    IsRetried 500 second_try (3 - 1) 1 (record_match_result 3 500 second_try closed_arena)
record_match_result_example =
    record_match_result-IsRetried 3 500 second_try closed_arena match_record recorded

-- One wait of half a second.
second_try_stores :
    record_match_result 3 500 second_try closed_arena
    ≡ record { delivered = true; tries = 2; waits = 500 ∷ [] }
unfolding record_match_result
second_try_stores = refl

duel_closed : finish_battle arena song_end 200 ≡ ok (closed_room arena duel song_end 200)
unfolding finish_battle text_discrete
duel_closed = refl

dancers-Distinct : Distinct duel.dancer_ids
unfolding text_discrete
dancers-Distinct = (refl, (refl, tt))

finish_battle_example :
    (m : MatchRecord) × (from_finished_room (closed_room arena duel song_end 200) ≡ some m)
    × IsRecord arena duel song_end 200 m
finish_battle_example =
    finish_battle-IsRecord arena (closed_room arena duel song_end 200) duel song_end 200 refl
      dancers-Distinct duel_closed
