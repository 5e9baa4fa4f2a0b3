-- ===== src/RoomTimers/Keys.antt =====
-- The keys of RoomTimers.ts, `CODE|kind`, tell rooms and kinds apart when no code has a bar.
use dance_sync_back_end.Base.{
  ℕ, List, ◌≡◌, refl, ap, Bool, true, false, not, ◌&&◌, [], ◌∷◌, ◌++◌, nat_eq, Text, ◌==◌, eq→path,
  eq_refl, ◌∙◌, all, inl, inr, Bool-cases, arith, text_discrete,
}
use dance_sync_back_end.Identity.{Unicode}
use dance_sync_back_end.Identity.RoomCodes.{generate_room_code, generate_room_code-all}
use dance_sync_back_end.RoomTimers.{
  RoomTimerKind, song_challenge, song_choose, battle_end, kind_text, starts_with, room_prefix,
  timer_key,
}

-- A text without the bar that ends the code in a key.
abbrev pub has_no_bar : Text → Bool
has_no_bar = all (λ c. not (nat_eq c 124))

split_bar :
    (a b x y : Text)
    → has_no_bar a ≡ true
    → has_no_bar b ≡ true
    → a ++ 124 ∷ x ≡ b ++ 124 ∷ y
    → (a ≡ b) × (x ≡ y)
split_bar [] [] x y p q e = (refl, ground (arith, e))
split_bar [] (d ∷ b) x y p q e = absurd (ground (arith, e))
split_bar (c ∷ a) [] x y p q e = absurd (ground (arith, e))
split_bar (c ∷ a) (d ∷ b) x y p q e =
    ground (arith, split_bar a b x y (ground arith) (ground arith) (ground arith))

bar-eq :
    (a b x y : Text)
    → has_no_bar a ≡ true
    → has_no_bar b ≡ true
    → (a ++ 124 ∷ x == b ++ 124 ∷ y) ≡ ((a == b) && (x == y))
bar-eq a b x y p q = elim (Bool-cases (a ++ 124 ∷ x == b ++ 124 ∷ y)) [
  | inl e ↦
      let (same, rest) = split_bar a b x y p q (eq→path (a ++ 124 ∷ x) (b ++ 124 ∷ y) e) in
      rw e (rw (same, rest, eq_refl b, eq_refl y) refl)
  | inr e ↦ ground (arith, e, eq→path a b, eq→path x y, eq_refl (b ++ 124 ∷ y))
]

abbrev pub same_kind : RoomTimerKind → RoomTimerKind → Bool
same_kind song_challenge song_challenge = true
same_kind song_choose song_choose = true
same_kind battle_end battle_end = true
same_kind _ _ = false

kind_text-eq : (k j : RoomTimerKind) → (kind_text k == kind_text j) ≡ same_kind k j
unfolding text_discrete
kind_text-eq song_challenge song_challenge = refl
kind_text-eq song_challenge song_choose = refl
kind_text-eq song_challenge battle_end = refl
kind_text-eq song_choose song_challenge = refl
kind_text-eq song_choose song_choose = refl
kind_text-eq song_choose battle_end = refl
kind_text-eq battle_end song_challenge = refl
kind_text-eq battle_end song_choose = refl
kind_text-eq battle_end battle_end = refl

append_bar : (a x : Text) → (a ++ 124 ∷ []) ++ x ≡ a ++ 124 ∷ x
append_bar [] x = refl
append_bar (c ∷ a) x = ap (λ t. c ∷ t) (append_bar a x)

starts_with-bar :
    (a b x : Text)
    → has_no_bar a ≡ true
    → has_no_bar b ≡ true
    → starts_with (a ++ 124 ∷ []) (b ++ 124 ∷ x) ≡ (a == b)
starts_with-bar [] [] x p q = ground arith
starts_with-bar [] (d ∷ b) x p q = ground arith
starts_with-bar (c ∷ a) [] x p q = ground arith
starts_with-bar (c ∷ a) (d ∷ b) x p q = ground (arith, starts_with-bar a b x)

module _ (u : Unicode) where
  abbrev pub IsPlain : Text → Type 0
  IsPlain code = has_no_bar (u.to_upper_case code) ≡ true

  abbrev pub same_room : Text → Text → Bool
  same_room a b = u.to_upper_case a == u.to_upper_case b

  pub timer_key-eq :
      (a b : Text) (k j : RoomTimerKind)
      → IsPlain a
      → IsPlain b
      → (timer_key u a k == timer_key u b j) ≡ (same_room a b && same_kind k j)
  timer_key-eq a b k j p q =
      rw
        (append_bar (u.to_upper_case a) (kind_text k), append_bar (u.to_upper_case b) (kind_text j))
        (bar-eq (u.to_upper_case a) (u.to_upper_case b) (kind_text k) (kind_text j) p q
          ∙ ap (λ c. same_room a b && c) (kind_text-eq k j))

  pub starts_with-timer_key :
      (a b : Text) (j : RoomTimerKind)
      → IsPlain a
      → IsPlain b
      → starts_with (room_prefix u a) (timer_key u b j) ≡ same_room a b
  starts_with-timer_key a b j p q =
      rw (append_bar (u.to_upper_case b) (kind_text j))
        (starts_with-bar (u.to_upper_case a) (u.to_upper_case b) (kind_text j) p q)

-- The codes that the service makes have no bar, since they are written in capitals and digits.
pub generate_room_code-IsPlain :
    (u : Unicode) (bytes : List ℕ)
    → u.to_upper_case (generate_room_code bytes) ≡ generate_room_code bytes
    → IsPlain u (generate_room_code bytes)
generate_room_code-IsPlain u bytes e =
    rw e (generate_room_code-all (λ c. not (nat_eq c 124)) bytes refl).1
