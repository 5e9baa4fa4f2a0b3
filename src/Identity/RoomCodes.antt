-- ===== src/Identity/RoomCodes.antt =====
-- `generateRoomCode` of domain/services/RoomService.ts: the characters of a code, and that a code has
-- none of those that separate the parts of a timer's key.
use dance_sync_back_end.Base.{
  sym, subst, zero, suc, ℕ, ◌%◌, ◌<◌, ◌≡◌, refl, ap, Bool, true, none, some, List, [], ◌∷◌, ◌++◌,
  all, Text, text, get_elem?, length, arith,
}

abbrev pub room_code_alphabet : Text
room_code_alphabet = text "ABCDEFGHJKLMNPQRSTUVWXYZ23456789"

-- ROOM_CODE_ALPHABET[i], where a missing character is appended as the text of `undefined`
abbrev pub alphabet_char : ℕ → Text
alphabet_char i = elim (get_elem? room_code_alphabet i) [
  | none ↦ text "undefined"
  | some c ↦ c ∷ []
]

-- `bytes` are what randomBytes returned.
unfoldable pub generate_room_code : List ℕ → Text
generate_room_code [] = []
generate_room_code (byte ∷ bytes) =
    alphabet_char (byte % length room_code_alphabet) ++ generate_room_code bytes

get_elem?-all {ℓ} :
    {A : Type ℓ} (p : A → Bool) (xs : List A) (i : ℕ)
    → all p xs ≡ true
    → i < length xs
    → (x : A) × (get_elem? xs i ≡ some x) × (p x ≡ true)
get_elem?-all p [] i h l = absurd (omega arith)
get_elem?-all p (x ∷ xs) zero h l = (x, refl, ground arith)
get_elem?-all p (x ∷ xs) (suc i) h l = get_elem?-all p xs i (ground arith) (omega arith)

-- What holds of every character of the alphabet holds of every character of a code, which has as many
-- as there were bytes.
pub generate_room_code-all :
    (p : ℕ → Bool) (bytes : List ℕ)
    → all p room_code_alphabet ≡ true
    → (length (generate_room_code bytes) ≡ length bytes) × (all p (generate_room_code bytes) ≡ true)
unfolding generate_room_code
generate_room_code-all p [] h = (refl, refl)
generate_room_code-all p (byte ∷ bytes) h =
    let (c, e, q) = get_elem?-all p room_code_alphabet (byte % 32) h (omega arith) in
    let (l, r) = generate_room_code-all p bytes h in
    let char : generate_room_code (byte ∷ bytes) ≡ c ∷ generate_room_code bytes =
      ap (λ o. elim o [ none ↦ text "undefined" | some d ↦ d ∷ [] ] ++ generate_room_code bytes)
        e in
    subst (λ code. (length code ≡ suc (length bytes)) × (all p code ≡ true)) (sym char)
      (ap suc l, ground (arith, q, r))
