-- ===== src/Examples/Names.antt =====
-- Ana makes a room, and a second Ana comes into it.
use dance_sync_back_end.Base.{
  ◌≡◌, refl, true, false, some, List, [], ◌∷◌, map, text, Text, includes, text_discrete,
}
use dance_sync_back_end.Model.{Player, Room, dancer, string}
use dance_sync_back_end.Identity.{decimal, candidate, unique_display_name}
use dance_sync_back_end.Identity.UniqueNames.{unique_display_name-free}
use dance_sync_back_end.Errors.{ok}
use dance_sync_back_end.Identity.{Identity, validate_player, trim}
use dance_sync_back_end.Identity.Trimming.{IsIdentity, validate_player-IsIdentity}
use dance_sync_back_end.RoomRepository.{Rooms}
use dance_sync_back_end.UseCases.{create_room}
use dance_sync_back_end.UseCases.Creations.{IsCreated, create_room-IsCreated}
use dance_sync_back_end.Examples.Samples.{plain, ana}

abbrev players : List Player
players = record { id = ana; display_name = text "Ana"; role = dancer; ready = true } ∷ []

unique_display_name_example :
    (name : Text) × (unique_display_name plain players (text "Ana") ≡ some name)
    × (includes (map (λ (p : Player). p.display_name) players) name ≡ false)
unique_display_name_example = unique_display_name-free plain (λ s n. refl) (text "Ana") players

second_ana : unique_display_name plain players (text "Ana") ≡ some (text "Ana 2")
unfolding unique_display_name candidate decimal text_discrete
second_ana = refl

abbrev ana_here : Identity
ana_here = record { id = ana; display_name = text "Ana" }

ana_accepted : validate_player (string ana) (string (text " Ana ")) ≡ ok ana_here
unfolding validate_player trim text_discrete
ana_accepted = refl

validate_player_example :
    IsIdentity ana_here
    × (string ana ≡ string ana)
    × (validate_player (string ana) (string (text "Ana")) ≡ ok ana_here)
validate_player_example =
    validate_player-IsIdentity (string ana) (string (text " Ana ")) ana_here ana_accepted

abbrev no_rooms : Rooms
no_rooms = []

create_room_example :
    (room : Room) × ((create_room plain
        (string ana)
        (string (text " Ana "))
        1
        (text "ROOM" ∷ [])
        no_rooms).0
      ≡ ok room)
    × IsCreated plain ana no_rooms
        (create_room plain (string ana) (string (text " Ana ")) 1 (text "ROOM" ∷ []) no_rooms).1
        room
create_room_example =
    create_room-IsCreated plain (string ana) (string (text " Ana ")) 1 (text "ROOM" ∷ []) no_rooms
      ana_here ana_accepted refl
