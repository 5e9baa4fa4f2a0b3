-- ===== src/Base/Sort.antt =====
-- Array.prototype.sort, which is stable: `before a b` says that the comparator is at most 0 at a, b.
use mathlib.Core.Path.{◌≡◌, refl}
use mathlib.Core.Bool.{Bool, true, false}
use mathlib.Core.List.{List, [], ◌∷◌, map, Perm}
use mathlib.Core.List.Perm
use native.Mathlib.Omega.{arith}
use dance_sync_back_end.Base.Tests.{if◌then◌else◌, Bool-cases}
use mathlib.Core.Logic.{inl, inr}
use dance_sync_back_end.Base.Lists.{All, All-of_map, length}

module _ {ℓ} {A : Type ℓ} where
  unfoldable pub insert_sorted : (A → A → Bool) → A → List A → List A
  insert_sorted before x [] = x ∷ []
  insert_sorted before x (y ∷ ys) = if before x y then x ∷ y ∷ ys else y ∷ insert_sorted before x ys

  unfoldable pub sort : (A → A → Bool) → List A → List A
  unfolding insert_sorted
  sort before [] = []
  sort before (x ∷ xs) = insert_sorted before x (sort before xs)

  -- Each entry goes before the next by the comparator.
  abbrev pub Sorted : (A → A → Bool) → List A → Type ℓ
  Sorted before [] = Unit
  Sorted before (x ∷ xs) = All (λ y. before x y ≡ true) xs × Sorted before xs

module _ {ℓ} {A : Type ℓ} (before : A → A → Bool) where
  pub insert_sorted-perm : (x : A) (xs : List A) → Perm (insert_sorted before x xs) (x ∷ xs)
  unfolding insert_sorted
  insert_sorted-perm x [] = Perm.refl (x ∷ [])
  insert_sorted-perm x (y ∷ ys) = elim (Bool-cases (before x y)) [
    | inl e ↦ rw e (Perm.refl (x ∷ y ∷ ys))
    | inr e ↦ rw e (Perm.trans (Perm.cons y (insert_sorted-perm x ys)) (Perm.swap x y ys))
  ]

  pub sort-perm : (xs : List A) → Perm (sort before xs) xs
  unfolding sort
  sort-perm [] = Perm.refl []
  sort-perm (x ∷ xs) =
      Perm.trans (insert_sorted-perm x (sort before xs)) (Perm.cons x (sort-perm xs))

  pub length-insert_sorted :
      (x : A) (xs : List A) → length (insert_sorted before x xs) ≡ length (x ∷ xs)
  unfolding insert_sorted
  length-insert_sorted x [] = refl
  length-insert_sorted x (y ∷ ys) = ground (arith, length-insert_sorted x ys)

  pub length-sort : (xs : List A) → length (sort before xs) ≡ length xs
  unfolding sort
  length-sort [] = refl
  length-sort (x ∷ xs) = omega (arith, length-insert_sorted x (sort before xs), length-sort xs)

module _ {ℓ κ} {A : Type ℓ} (P : A → Type κ) (before : A → A → Bool) where
  pub All-insert_sorted : (x : A) (xs : List A) → P x → All P xs → All P (insert_sorted before x xs)
  unfolding insert_sorted
  All-insert_sorted x [] p h = (p, tt)
  All-insert_sorted x (y ∷ ys) p h = ground (arith, All-insert_sorted x ys p h.1)

  pub All-sort : (xs : List A) → All P xs → All P (sort before xs)
  unfolding sort
  All-sort [] h = tt
  All-sort (x ∷ xs) h = All-insert_sorted x (sort before xs) h.0 (All-sort xs h.1)

module _ {ℓ} {A : Type ℓ} (before : A → A → Bool)
    (total : (a b : A) → before a b ≡ false → before b a ≡ true)
    (trans : (a b c : A) → before a b ≡ true → before b c ≡ true → before a c ≡ true) where
  before-All :
      (x y : A) (ys : List A)
      → before x y ≡ true
      → All (λ z. before y z ≡ true) ys
      → All (λ z. before x z ≡ true) ys
  before-All x y [] p h = tt
  before-All x y (z ∷ zs) p h = (trans x y z p h.0, before-All x y zs p h.1)

  insert_sorted-Sorted :
      (x : A) (xs : List A) → Sorted before xs → Sorted before (insert_sorted before x xs)
  unfolding insert_sorted
  insert_sorted-Sorted x [] h = (tt, tt)
  insert_sorted-Sorted x (y ∷ ys) h = elim (Bool-cases (before x y)) [
    | inl e ↦ rw e ((e, before-All x y ys e h.0), h)
    | inr e ↦ rw e (
      All-insert_sorted (λ z. before y z ≡ true) before x ys (total x y e) h.0,
      insert_sorted-Sorted x ys h.1,
    )
  ]

  pub sort-Sorted : (xs : List A) → Sorted before (sort before xs)
  unfolding sort
  sort-Sorted [] = tt
  sort-Sorted (x ∷ xs) = insert_sorted-Sorted x (sort before xs) (sort-Sorted xs)

module _ {ℓ κ ι} {A : Type ℓ} {B : Type κ} (P : A → Type ι) (f : A → B) (R : A → A → Bool)
    (S : B → B → Bool) (keeps : (a b : A) → P a → P b → R a b ≡ true → S (f a) (f b) ≡ true) where
  before_map :
      (x : A) (ys : List A)
      → P x
      → All P ys
      → All (λ y. R x y ≡ true) ys
      → All (λ b. S (f x) b ≡ true) (map f ys)
  before_map x [] p q h = tt
  before_map x (y ∷ ys) p q h = (keeps x y p q.0 h.0, before_map x ys p q.1 h.1)

  -- A map that keeps the order of the entries with `P` keeps them sorted.
  pub Sorted-map : (xs : List A) → All P xs → Sorted R xs → Sorted S (map f xs)
  Sorted-map [] p h = tt
  Sorted-map (x ∷ xs) p h = (before_map x xs p.0 p.1 h.0, Sorted-map xs p.1 h.1)

module _ {ℓ κ} {A : Type ℓ} {B : Type κ} (f : A → B) (S : B → B → Bool) where
  pub Sorted-of_map : (xs : List A) → Sorted S (map f xs) → Sorted (λ a b. S (f a) (f b)) xs
  Sorted-of_map [] h = tt
  Sorted-of_map (x ∷ xs) h = (All-of_map (λ b. S (f x) b ≡ true) f xs h.0, Sorted-of_map xs h.1)
