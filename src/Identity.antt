-- ===== src/Identity.antt =====
-- domain/services/RoomService.ts, lines 43 to 96: what clients say they are, and the names they get;
-- and `normalizeAttempt` of SongSelectionService.ts.
pub mod Decimals
pub mod RoomCodes
pub mod Trimming
pub mod UniqueNames
use dance_sync_back_end.Base.{
  arith, ℕ, zero, suc, ◌+◌, ◌-◌, ◌/◌, ◌%◌, ◌≡◌, Bool, not, ◌||◌, ◌&&◌, Option, none, some, List, [],
  ◌∷◌, ◌++◌, map, Text, ◌==◌, ltb, leb, nat_eq, if◌then◌else◌, length, includes, take,
}
use dance_sync_back_end.Errors.{
  Result, ok, throw, throw_if, invalid_player, room_not_found, ◌>>=◌, ◌>>◌,
}
use dance_sync_back_end.Model.{Player, Wire, string, max_player_id_length, max_display_name_length}

-- The string methods that rest on the tables of Unicode (and on the locale of the process).
pub record Unicode : Type 0 where
  pub normalize_nfc : Text → Text
  pub to_lower_case : Text → Text
  pub to_locale_lower_case : Text → Text
  pub to_upper_case : Text → Text

-- WhiteSpace and LineTerminator of ECMAScript, which `trim` removes
unfoldable pub is_space : ℕ → Bool
is_space c =
    leb 9 c && leb c 13
    || nat_eq c 32
    || nat_eq c 0xa0
    || nat_eq c 0x1680
    || leb 0x2000 c && leb c 0x200a
    || nat_eq c 0x2028
    || nat_eq c 0x2029
    || nat_eq c 0x202f
    || nat_eq c 0x205f
    || nat_eq c 0x3000
    || nat_eq c 0xfeff

unfoldable pub trim_start : Text → Text
unfolding is_space
trim_start [] = []
trim_start (c ∷ s) = let rest = trim_start s in if is_space c then rest else c ∷ s

abbrev cons_unless_blank : ℕ → Text → Text
cons_unless_blank c [] = if is_space c then [] else c ∷ []
cons_unless_blank c (d ∷ s) = c ∷ d ∷ s

unfoldable pub trim_end : Text → Text
unfolding is_space
trim_end [] = []
trim_end (c ∷ s) = cons_unless_blank c (trim_end s)

unfoldable pub trim : Text → Text
unfolding trim_start trim_end
trim s = trim_end (trim_start s)

-- Omit<Player, "role" | "ready">
pub record Identity : Type 0 where
  pub id : Text
  pub display_name : Text

require_id : Wire → Result Text
require_id (string id) = do
  throw_if (nat_eq (length id) 0 || ltb max_player_id_length (length id) || not (trim id == id))
      invalid_player
  ok id
require_id _ = throw invalid_player

-- typeof displayName === "string" ? displayName.trim() : ""
trimmed_name : Wire → Text
trimmed_name (string name) = trim name
trimmed_name _ = []

unfoldable pub validate_player : Wire → Wire → Result Identity
unfolding require_id trimmed_name
validate_player id display_name = do
  checked ← require_id id
  let name = trimmed_name display_name
  throw_if (nat_eq (length name) 0 || ltb max_display_name_length (length name)) invalid_player
  ok (record { id = checked; display_name = name })

-- String(n), digit by digit from the right.
digits_from : ℕ → ℕ → Text → Text
digits_from zero n acc = acc
digits_from (suc f) n acc =
    let rest = digits_from f (n / 10) ((48 + n % 10) ∷ acc) in
    if ltb n 10 then (48 + n) ∷ acc else rest

unfoldable pub decimal : ℕ → Text
unfolding digits_from
decimal n = digits_from (suc n) n []

suffix : ℕ → Text
unfolding decimal
suffix n = 32 ∷ decimal n

unfoldable pub candidate : Text → ℕ → Text
unfolding suffix trim_end
candidate display_name n =
    trim_end (take (max_display_name_length - length (suffix n)) display_name) ++ suffix n

module _ (u : Unicode) where
  -- The `for` loop from `n` on; `none` means that the fuel ran out.
  first_free : ℕ → ℕ → List Text → Text → Option Text
  first_free zero n taken display_name = none
  first_free (suc fuel) n taken display_name =
      let rest = first_free fuel (n + 1) taken display_name in
      if includes taken (u.to_locale_lower_case (candidate display_name n))
      then rest
      else some (candidate display_name n)

  taken_names : List Player → List Text
  taken_names players = map (λ p. u.to_locale_lower_case p.display_name) players

  -- One round more than there are players.
  unfoldable pub unique_display_name : List Player → Text → Option Text
  unfolding taken_names first_free candidate
  unique_display_name players display_name =
      let taken = taken_names players in
      let free = first_free (suc (length players)) 2 taken display_name in
      if includes taken (u.to_locale_lower_case display_name) then free else some display_name

  unfoldable pub normalize_attempt : Text → Text
  unfolding trim
  normalize_attempt s = trim (u.normalize_nfc s)

unfoldable pub require_room_code : Wire → Result Text
unfolding trim
require_room_code (string code) = do
  throw_if (nat_eq (length (trim code)) 0) room_not_found
  ok (trim code)
require_room_code _ = throw room_not_found

pub validate_player-id :
    (id : Text) (name : Wire) (v : Identity) → validate_player (string id) name ≡ ok v → v.id ≡ id
unfolding validate_player
validate_player-id id name v e = ground arith
