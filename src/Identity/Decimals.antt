-- ===== src/Identity/Decimals.antt =====
-- The decimal digits of a number (`String(n)`) and the number they stand for.
use dance_sync_back_end.Base.{
  ℕ, zero, suc, ◌+◌, ◌-◌, ◌*◌, ◌/◌, ◌%◌, ◌<◌, ◌≡◌, sym, ap, ◌∙◌, [], ◌∷◌, Text, arith, ltb, inl,
  inr, Bool-cases, All, ◌≤◌,
}
use dance_sync_back_end.Identity.{digits_from, decimal}

-- The number that digits stand for, after those read before.
abbrev pub number_of : ℕ → Text → ℕ
number_of before [] = before
number_of before (c ∷ s) = number_of (10 * before + (c - 48)) s

number_of-digits_from :
    (f n : ℕ) (acc : Text) → n < f → number_of 0 (digits_from f n acc) ≡ number_of n acc
unfolding digits_from
number_of-digits_from zero n acc h = absurd (omega arith)
number_of-digits_from (suc f) n acc h = elim (Bool-cases (ltb n 10)) [
  | inl one_digit ↦ rw one_digit (ap (λ m. number_of m acc) (omega arith))
  | inr more ↦ rw more (
      number_of-digits_from f (n / 10) ((48 + n % 10) ∷ acc) (ground arith)
      ∙ ap (λ m. number_of m acc) (omega arith))
]

pub number_of-decimal : (n : ℕ) → number_of 0 (decimal n) ≡ n
unfolding decimal
number_of-decimal n = number_of-digits_from (suc n) n [] (omega arith)

pub decimal-injective : (m n : ℕ) → decimal m ≡ decimal n → m ≡ n
decimal-injective m n e =
    sym (number_of-decimal m) ∙ ap (λ s. number_of 0 s) e ∙ number_of-decimal n

-- Digits are no spaces.
digits_from-All :
    (f n : ℕ) (acc : Text) → All (λ c. 48 ≤ c) acc → All (λ c. 48 ≤ c) (digits_from f n acc)
unfolding digits_from
digits_from-All zero n acc h = h
digits_from-All (suc f) n acc h = elim (Bool-cases (ltb n 10)) [
  | inl one_digit ↦ rw one_digit (omega arith, h)
  | inr more ↦ rw more (digits_from-All f (n / 10) ((48 + n % 10) ∷ acc) (omega arith, h))
]

pub decimal-All : (n : ℕ) → All (λ c. 48 ≤ c) (decimal n)
unfolding decimal
decimal-All n = digits_from-All (suc n) n [] tt
