-- ===== src/Identity/Trimming.antt =====
-- `trim`, and the checks of `validatePlayer` in RoomService.ts on what has passed them.
use dance_sync_back_end.Base.{
  ℕ, ◌≤◌, ◌≡◌, refl, sym, subst, ap, ◌∙◌, Bool, true, false, not, ◌||◌, [], ◌∷◌, Text, eq_refl,
  arith, inl, inr, Bool-cases, length, ltb, nat_eq,
}
use dance_sync_back_end.Errors.{Result-cases, ok}
use dance_sync_back_end.Model.{
  Wire, string, boolean, null, missing, other, array, max_player_id_length, max_display_name_length,
}
use dance_sync_back_end.Identity.{
  Identity, is_space, trim_start, trim_end, trim, cons_unless_blank, require_id, trimmed_name,
  validate_player,
}

-- No space at the start.
abbrev starts_dark : Text → Bool
starts_dark [] = true
starts_dark (c ∷ s) = not (is_space c)

trim_start-dark : (s : Text) → starts_dark (trim_start s) ≡ true
unfolding trim_start
trim_start-dark [] = refl
trim_start-dark (c ∷ s) = ground (arith, trim_start-dark s)

dark-trim_start : (s : Text) → starts_dark s ≡ true → trim_start s ≡ s
unfolding trim_start
dark-trim_start [] h = refl
dark-trim_start (c ∷ s) h = ground arith

cons_unless_blank-dark :
    (c : ℕ) (s : Text) → is_space c ≡ false → starts_dark (cons_unless_blank c s) ≡ true
cons_unless_blank-dark c [] h = ground arith
cons_unless_blank-dark c (d ∷ s) h = ground arith

trim_end-dark : (s : Text) → starts_dark s ≡ true → starts_dark (trim_end s) ≡ true
unfolding trim_end
trim_end-dark [] h = refl
trim_end-dark (c ∷ s) h = cons_unless_blank-dark c (trim_end s) (ground arith)

cons-trim_end :
    (c : ℕ) (s : Text) → trim_end s ≡ s → trim_end (cons_unless_blank c s) ≡ cons_unless_blank c s
unfolding trim_end
cons-trim_end c [] h = elim (Bool-cases (is_space c)) [
  | inl blank ↦ rw blank refl
  | inr dark ↦ rw dark (rw dark refl)
]
cons-trim_end c (d ∷ s) h = rw h refl

trim_end-trim_end : (s : Text) → trim_end (trim_end s) ≡ trim_end s
unfolding trim_end
trim_end-trim_end [] = refl
trim_end-trim_end (c ∷ s) = cons-trim_end c (trim_end s) (trim_end-trim_end s)

trim-trim : (s : Text) → trim (trim s) ≡ trim s
unfolding trim
trim-trim s =
    ap trim_end
      (dark-trim_start (trim_end (trim_start s)) (trim_end-dark (trim_start s) (trim_start-dark s)))
    ∙ trim_end-trim_end (trim_start s)

-- What has passed the checks: an id of 1 to 64 characters and a name of 1 to 32, without outer spaces.
pub record IsIdentity (v : Identity) : Type 0 where
  pub id_trimmed : trim v.id ≡ v.id
  pub id_some : 1 ≤ length v.id
  pub id_short : length v.id ≤ max_player_id_length
  pub name_trimmed : trim v.display_name ≡ v.display_name
  pub name_some : 1 ≤ length v.display_name
  pub name_short : length v.display_name ≤ max_display_name_length

-- The checks of an id.
abbrev IsId : Text → Type 0
IsId i = (trim i ≡ i) × (1 ≤ length i) × (length i ≤ max_player_id_length)

require_id-IsId : (w : Wire) (i : Text) → require_id w ≡ ok i → IsId i × (w ≡ string i)
unfolding require_id
require_id-IsId (string s) i e = ground arith
require_id-IsId (boolean b) i e = absurd (ground arith)
require_id-IsId null i e = absurd (ground arith)
require_id-IsId missing i e = absurd (ground arith)
require_id-IsId other i e = absurd (ground arith)
require_id-IsId (array x) i e = absurd (ground arith)

trim-trimmed_name : (w : Wire) → trim (trimmed_name w) ≡ trimmed_name w
unfolding trimmed_name trim
trim-trimmed_name (string s) = trim-trim s
trim-trimmed_name (boolean b) = trim-trim []
trim-trimmed_name null = trim-trim []
trim-trimmed_name missing = trim-trim []
trim-trimmed_name other = trim-trim []
trim-trimmed_name (array x) = trim-trim []

name_fits : Text → Bool
name_fits name = not (nat_eq (length name) 0 || ltb max_display_name_length (length name))

checked-validate_player :
    (i n : Text)
    → IsId i
    → trim n ≡ n
    → name_fits n ≡ true
    → validate_player (string i) (string n) ≡ ok (record { id = i; display_name = n })
unfolding validate_player name_fits
checked-validate_player i n h k f = ground (arith, h, k, f, eq_refl i)

-- An identity that is accepted has an id of 1 to 64 characters, which is the one that was sent, and
-- a name of 1 to 32, both without outer spaces; and it is accepted again, as it is.
pub validate_player-IsIdentity :
    (id name : Wire) (v : Identity)
    → validate_player id name ≡ ok v
    → IsIdentity v
      × (id ≡ string v.id)
      × (validate_player (string v.id) (string v.display_name) ≡ ok v)
unfolding validate_player name_fits
validate_player-IsIdentity id name v = elim (Result-cases (require_id id)) [
  | inl (f, r) ↦ rw (r, validate_player) λ e. absurd (ground arith)
  | inr (i, r) ↦
      rw (r, validate_player)
        λ e.
          let (checked, same) = require_id-IsId id i r in
          let got : v ≡ record { id = i; display_name = trimmed_name name } = ground arith in
          let fits : name_fits (trimmed_name name) ≡ true = ground arith in
          subst
            (λ w.
              IsIdentity w
              × (id ≡ string w.id)
              × (validate_player (string w.id) (string w.display_name) ≡ ok w))
            (sym got)
            (
              record {
                id_trimmed = checked.0;
                id_some = checked.1;
                id_short = checked.2;
                name_trimmed = trim-trimmed_name name;
                name_some = ground arith;
                name_short = ground arith;
              },
              same,
              checked-validate_player i (trimmed_name name) checked (trim-trimmed_name name) fits,
            )
]
