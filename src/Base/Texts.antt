-- ===== src/Base/Texts.antt =====
-- Strings: a JavaScript string is a sequence of UTF-16 code units, here a list of numbers.
use Prim.Native.Nat.{ℕ}
use Prim.Native.Char.{code}
use Prim.Native.String.{String}
use mathlib.Core.Path.{◌≡◌, refl, ap₂}
use mathlib.Core.Logic.{◌≢◌}
use mathlib.Core.Bool.{Bool, true, false}
use mathlib.Core.List.{List, [], ◌∷◌}
use native.Mathlib.Omega.{arith}
use native.Mathlib.Decide.{ℕ_discrete}
use dance_sync_back_end.Base.Lists.{any}

abbrev pub Text : Type 0
Text = List ℕ

-- A literal of the source; every one that is modelled is ASCII.
abbrev pub text : String → Text
text String.[] = []
text (String.◌∷◌ c s) = code c ∷ text s

cons_ne_nil : (x : ℕ) (xs : Text) → x ∷ xs ≢ []
cons_ne_nil x xs e = cc

nil_ne_cons : (x : ℕ) (xs : Text) → [] ≢ x ∷ xs
nil_ne_cons x xs e = cc

heads_ne : (x y : ℕ) (xs ys : Text) → x ≢ y → x ∷ xs ≢ y ∷ ys
heads_ne x y xs ys h e = ground arith

tails_ne : (x y : ℕ) (xs ys : Text) → xs ≢ ys → x ∷ xs ≢ y ∷ ys
tails_ne x y xs ys h e = ground arith

decide_cons : (x y : ℕ) (xs ys : Text) → Dec (x ≡ y) → Dec (xs ≡ ys) → Dec (x ∷ xs ≡ y ∷ ys)
decide_cons x y xs ys (yes p) (yes q) = yes (ap₂ ◌∷◌ p q)
decide_cons x y xs ys (yes p) (no q) = no (tails_ne x y xs ys q)
decide_cons x y xs ys (no p) d = no (heads_ne x y xs ys p)

unfoldable pub text_discrete : Discrete Text
unfolding ℕ_discrete decide_cons cons_ne_nil nil_ne_cons heads_ne tails_ne
text_discrete [] [] = yes refl
text_discrete [] (y ∷ ys) = no (nil_ne_cons y ys)
text_discrete (x ∷ xs) [] = no (cons_ne_nil x xs)
text_discrete (x ∷ xs) (y ∷ ys) = decide_cons x y xs ys (ℕ_discrete x y) (text_discrete xs ys)

-- `a === b` on strings
infix 50 ◌==◌
abbrev pub ◌==◌ : Text → Text → Bool
a == b = elim (text_discrete a b) [ yes _ ↦ true | no _ ↦ false ]

pub eq_refl : (a : Text) → (a == a) ≡ true
eq_refl a = ground arith

pub eq→path : (a b : Text) → (a == b) ≡ true → a ≡ b
eq→path a b h = ground arith

-- xs.includes(a)
abbrev pub includes : List Text → Text → Bool
includes xs a = any (λ x. x == a) xs

-- No text stands twice in the list.
abbrev pub Distinct : List Text → Type 0
Distinct [] = Unit {0}
Distinct (x ∷ xs) = (includes xs x ≡ false) × Distinct xs
