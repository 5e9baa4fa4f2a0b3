-- ===== src/Server/Commands.antt =====
-- What the service does to rooms, through every handler, timer and route, is a sequence of the commands
-- on rooms.
use dance_sync_back_end.Base.{◌≡◌, refl, sym, ◌∙◌, ap, List, [], ◌∷◌, ◌++◌}
use dance_sync_back_end.Identity.{Unicode}
use dance_sync_back_end.SongSelectionService.{RandomIndex}
use dance_sync_back_end.RoomRepository.{Rooms}
use dance_sync_back_end.UseCases.Requests.{Request, serve, serve_all}

module _ (u : Unicode) where
  -- The rooms `after` come from `before` by some commands, one after the other.
  abbrev pub Serves : Rooms → Rooms → Type 0
  Serves before after =
      (requests : List (RandomIndex × Request)) × (after ≡ serve_all u requests before)

  serve_all-append :
      (rs ss : List (RandomIndex × Request)) (rooms : Rooms)
      → serve_all u (rs ++ ss) rooms ≡ serve_all u ss (serve_all u rs rooms)
  unfolding serve_all
  serve_all-append [] ss rooms = refl
  serve_all-append ((random, r) ∷ rs) ss rooms = serve_all-append rs ss (serve u random r rooms)

  pub kept : (before after : Rooms) → after ≡ before → Serves before after
  unfolding serve_all
  kept before after e = ([], e)

  pub served :
      (random : RandomIndex) (request : Request) (before after : Rooms)
      → after ≡ serve u random request before
      → Serves before after
  unfolding serve_all
  served random request before after e = ((random, request) ∷ [], e)

  pub Serves_trans : (a b c : Rooms) → Serves a b → Serves b c → Serves a c
  Serves_trans a b c (rs, e) (ss, f) =
      (rs ++ ss, f ∙ ap (serve_all u ss) e ∙ sym (serve_all-append rs ss a))
