-- ===== src/Identity/UniqueNames.antt =====
-- The search of `uniqueDisplayName` in RoomService.ts.
use dance_sync_back_end.Base.{
  ℕ, zero, suc, ◌+◌, ◌-◌, ◌≤◌, ◌<◌, ◌≡◌, ◌⊎◌, refl, sym, ap, ◌∙◌, true, false, not, some, List, [],
  ◌∷◌, ◌++◌, Text, ◌==◌, text_discrete, arith, inl, inr, Bool-cases, length, filter, All, includes,
  Distinct, nat_eq, if◌then◌else◌, map, take, length-map,
}
use dance_sync_back_end.Model.{Player, max_display_name_length}
use dance_sync_back_end.Identity.{
  Unicode, decimal, suffix, candidate, first_free, taken_names, unique_display_name, trim_end,
}
use dance_sync_back_end.Identity.Decimals.{decimal-injective, decimal-All}

-- Without the entries equal to `x`.
abbrev without : Text → List Text → List Text
without x = filter (λ y. not (y == x))

without-shorter : (x : Text) (ys : List Text) → length (without x ys) ≤ length ys
without-shorter x [] = omega arith
without-shorter x (y ∷ ys) = ground (arith, without-shorter x ys)

without-lt : (x : Text) (ys : List Text) → includes ys x ≡ true → length (without x ys) < length ys
without-lt x [] h = absurd (ground arith)
without-lt x (y ∷ ys) h = ground (arith, without-lt x ys, without-shorter x ys)

includes-without :
    (x z : Text) (ys : List Text)
    → (z == x) ≡ false
    → includes ys z ≡ true
    → includes (without x ys) z ≡ true
includes-without x z [] e h = absurd (ground arith)
includes-without x z (y ∷ ys) e h = ground (arith, includes-without x z ys e)

All-without :
    (x : Text) (xs ys : List Text)
    → includes xs x ≡ false
    → All (λ z. includes ys z ≡ true) xs
    → All (λ z. includes (without x ys) z ≡ true) xs
All-without x [] ys d h = tt
All-without x (z ∷ xs) ys d h =
    (includes-without x z ys (ground arith) h.0, All-without x xs ys (ground arith) h.1)

-- Distinct texts that all stand in a list are no more than it has entries.
pigeonhole :
    (xs ys : List Text) → Distinct xs → All (λ z. includes ys z ≡ true) xs → length xs ≤ length ys
pigeonhole [] ys d h = omega arith
pigeonhole (x ∷ xs) ys d h =
    omega
      (arith, without-lt x ys h.0, pigeonhole xs (without x ys) d.1 (All-without x xs ys d.0 h.1))

-- What stands after the last space.
abbrev after_space : Text → Text → Text
after_space kept [] = kept
after_space kept (c ∷ s) = if nat_eq c 32 then after_space s s else after_space kept s

after_space-digits : (kept s : Text) → All (λ c. 48 ≤ c) s → after_space kept s ≡ kept
after_space-digits kept [] h = refl
after_space-digits kept (c ∷ s) h = ground (arith, h.0, after_space-digits kept s h.1)

after_space-append : (kept xs s : Text) → All (λ c. 48 ≤ c) s → after_space kept (xs ++ 32 ∷ s) ≡ s
after_space-append kept [] s h = after_space-digits s s h
after_space-append kept (c ∷ xs) s h =
    ground (arith, after_space-append kept xs s h, after_space-append (xs ++ 32 ∷ s) xs s h)

-- A space and digits are their own lower case, and what stands before them is lowered on its own.
abbrev pub LowersNumbersApart : Unicode → Type 0
LowersNumbersApart u =
    (s : Text) (n : ℕ)
    → u.to_locale_lower_case (s ++ 32 ∷ decimal n) ≡ u.to_locale_lower_case s ++ 32 ∷ decimal n

module _ (u : Unicode) (apart : LowersNumbersApart u) (display_name : Text) where
  abbrev lowered : ℕ → Text
  lowered n = u.to_locale_lower_case (candidate display_name n)

  number-lowered : (n : ℕ) → after_space [] (lowered n) ≡ decimal n
  unfolding candidate
  number-lowered n =
      let base : Text =
        trim_end (take (max_display_name_length - length (suffix n)) display_name) in
      ap (after_space []) (apart base n)
      ∙ after_space-append [] (u.to_locale_lower_case base) (decimal n) (decimal-All n)

  lowered-injective : (m n : ℕ) → lowered m ≡ lowered n → m ≡ n
  lowered-injective m n e =
      decimal-injective m n (sym (number-lowered m) ∙ ap (after_space []) e ∙ number-lowered n)

  -- The candidates that the loop tries.
  abbrev tried : ℕ → ℕ → List Text
  tried zero n = []
  tried (suc fuel) n = lowered n ∷ tried fuel (n + 1)

  length-tried : (fuel n : ℕ) → length (tried fuel n) ≡ fuel
  length-tried zero n = refl
  length-tried (suc fuel) n = omega (arith, length-tried fuel (n + 1))

  untried : (k fuel n : ℕ) → k < n → includes (tried fuel n) (lowered k) ≡ false
  untried k zero n h = refl
  untried k (suc fuel) n h = elim (text_discrete (lowered n) (lowered k)) [
    | yes same ↦ absurd (omega (arith, lowered-injective n k same))
    | no apart_from ↦ ground (arith, untried k fuel (n + 1) (omega arith))
  ]

  tried-Distinct : (fuel n : ℕ) → Distinct (tried fuel n)
  tried-Distinct zero n = tt
  tried-Distinct (suc fuel) n = (untried n fuel (n + 1) (omega arith), tried-Distinct fuel (n + 1))

  first_free-cases :
      (fuel n : ℕ) (taken : List Text)
      → ((name : Text) × (first_free u fuel n taken display_name ≡ some name)
          × (includes taken (u.to_locale_lower_case name) ≡ false))
        ⊎ All (λ k. includes taken k ≡ true) (tried fuel n)
  unfolding first_free
  first_free-cases zero n taken = inr tt
  first_free-cases (suc fuel) n taken = elim (Bool-cases (includes taken (lowered n))) [
    | inr free ↦ inl (candidate display_name n, rw (free, first_free) refl, free)
    | inl used ↦ elim (first_free-cases fuel (n + 1) taken) [
      | inl (name, found, free) ↦ inl (name, rw (used, first_free) found, free)
      | inr all_used ↦ inr (used, all_used)
    ]
  ]

  -- When lower-casing leaves a number at the end alone, the search for a free name ends, whoever is
  -- in the room, and the name that it gives differs from everybody's, ignoring case.
  pub unique_display_name-free :
      (players : List Player)
      → (name : Text) × (unique_display_name u players display_name ≡ some name)
        × (includes
              (map (λ p. u.to_locale_lower_case p.display_name) players)
              (u.to_locale_lower_case name)
            ≡ false)
  unfolding unique_display_name taken_names
  unique_display_name-free players =
      let taken : List Text = map (λ p. u.to_locale_lower_case p.display_name) players in
      elim (Bool-cases (includes taken (u.to_locale_lower_case display_name))) [
        | inr free ↦ (display_name, rw (free, unique_display_name) refl, free)
        | inl used ↦ elim (first_free-cases (suc (length players)) 2 taken) [
          | inl (name, found, free) ↦ (name, rw (used, unique_display_name) found, free)
          | inr all_used ↦ absurd (
              omega (
                arith,
                length-tried (suc (length players)) 2,
                length-map (λ (p : Player). u.to_locale_lower_case p.display_name) players,
                pigeonhole (tried (suc (length players)) 2) taken
                    (tried-Distinct (suc (length players)) 2) all_used,
              ))
        ]
      ]
