-- ===== src/Base/Keys.antt =====
-- The keys of a map under `insert` and `remove`, and what holds of each of its entries.
use mathlib.Core.Path.{◌≡◌, refl, sym, subst}
use mathlib.Core.Logic.{inl, inr}
use mathlib.Core.Bool.{Bool, false, not, ◌&&◌, ◌||◌}
use mathlib.Core.Option.{none, some}
use mathlib.Core.List.{[], ◌∷◌}
use native.Mathlib.Omega.{arith}
use dance_sync_back_end.Base.Tests.{Bool-cases, is_some}
use dance_sync_back_end.Base.Lists.{All, filter}
use dance_sync_back_end.Base.Texts.{Text, ◌==◌, eq→path, eq_refl, includes, Distinct}
use dance_sync_back_end.Base.Dicts.{Dict, lookup, insert, remove, keys, lookup-remove}

module _ {ℓ} {V : Type ℓ} where
  pub includes-keys-insert :
      (k j : Text) (v : V) (m : Dict V)
      → includes (keys (insert k v m)) j ≡ (includes (keys m) j || (k == j))
  includes-keys-insert k j v [] = ground arith
  includes-keys-insert k j v ((i, w) ∷ m) = ground (arith, includes-keys-insert k j v m)

  pub includes-keys-remove :
      (k j : Text) (m : Dict V)
      → includes (keys (remove k m)) j ≡ (includes (keys m) j && not (k == j))
  includes-keys-remove k j [] = refl
  includes-keys-remove k j ((i, w) ∷ m) = ground (arith, includes-keys-remove k j m)

  pub Distinct-insert :
      (k : Text) (v : V) (m : Dict V) → Distinct (keys m) → Distinct (keys (insert k v m))
  Distinct-insert k v [] d = (refl, tt)
  Distinct-insert k v ((i, w) ∷ m) d =
      ground (arith, d.0, includes-keys-insert k i v m, Distinct-insert k v m d.1)

  pub Distinct-remove : (k : Text) (m : Dict V) → Distinct (keys m) → Distinct (keys (remove k m))
  Distinct-remove k [] d = tt
  Distinct-remove k ((i, w) ∷ m) d =
      ground (arith, d.0, includes-keys-remove k i m, Distinct-remove k m d.1)

  pub includes-keys-filter :
      (f : Text × V → Bool) (m : Dict V) (j : Text)
      → includes (keys m) j ≡ false
      → includes (keys (filter f m)) j ≡ false
  includes-keys-filter f [] j h = refl
  includes-keys-filter f ((i, w) ∷ m) j h = ground (arith, includes-keys-filter f m j)

  pub Distinct-keys-filter :
      (f : Text × V → Bool) (m : Dict V) → Distinct (keys m) → Distinct (keys (filter f m))
  Distinct-keys-filter f [] d = tt
  Distinct-keys-filter f ((i, w) ∷ m) d =
      ground (arith, d.0, includes-keys-filter f m i, Distinct-keys-filter f m d.1)

  pub remove-absent : (k : Text) (m : Dict V) → lookup k m ≡ none → remove k m ≡ m
  remove-absent k [] e = refl
  remove-absent k ((i, w) ∷ m) e = ground (arith, remove-absent k m)

  pub includes-keys : (k : Text) (m : Dict V) → includes (keys m) k ≡ is_some (lookup k m)
  includes-keys k [] = refl
  includes-keys k ((i, w) ∷ m) = ground (arith, includes-keys k m)

  -- What the entries of a list find under their keys.
  abbrev pub AllIn : Dict V → Dict V → Type ℓ
  AllIn [] m = Unit
  AllIn ((k, v) ∷ es) m = (lookup k m ≡ some v) × AllIn es m

  AllIn-cons :
      (j : Text) (w : V) (es m : Dict V)
      → includes (keys es) j ≡ false
      → AllIn es m
      → AllIn es ((j, w) ∷ m)
  AllIn-cons j w [] m h a = tt
  AllIn-cons j w ((k, v) ∷ es) m h a =
      (ground (arith, a.0, eq→path j k, eq_refl k), AllIn-cons j w es m (ground arith) a.1)

  pub AllIn-remove :
      (j : Text) (es m : Dict V) → includes (keys es) j ≡ false → AllIn es m → AllIn es (remove j m)
  AllIn-remove j [] m h a = tt
  AllIn-remove j ((k, v) ∷ es) m h a = (
    ground (arith, a.0, lookup-remove j k m, eq→path j k, eq_refl k),
    AllIn-remove j es m (ground arith) a.1,
  )

  pub AllIn-self : (m : Dict V) → Distinct (keys m) → AllIn m m
  AllIn-self [] d = tt
  AllIn-self ((k, v) ∷ m) d = (ground (arith, eq_refl k), AllIn-cons k v m m d.0 (AllIn-self m d.1))

module _ {ℓ κ} {V : Type ℓ} (P : Text × V → Type κ) where
  pub All-insert : (k : Text) (v : V) (m : Dict V) → P (k, v) → All P m → All P (insert k v m)
  All-insert k v [] p h = (p, tt)
  All-insert k v ((i, w) ∷ m) p h = elim (Bool-cases (i == k)) [
    | inl e ↦ rw e (subst (λ j. P (j, v)) (sym (eq→path i k e)) p, h.1)
    | inr e ↦ rw e (h.0, All-insert k v m p h.1)
  ]

  pub All-remove : (k : Text) (m : Dict V) → All P m → All P (remove k m)
  All-remove k [] h = tt
  All-remove k ((i, w) ∷ m) h = ground (arith, All-remove k m h.1)

module _ {ℓ κ} {V : Type ℓ} (P : V → Type κ) where
  pub All-lookup : (k : Text) (m : Dict V) (v : V) → All (λ e. P e.1) m → lookup k m ≡ some v → P v
  All-lookup k [] v h e = absurd (ground arith)
  All-lookup k ((j, w) ∷ m) v h e = elim (Bool-cases (j == k)) [
    | inl hit ↦ subst P (ground arith) h.0
    | inr miss ↦ All-lookup k m v h.1 (ground arith)
  ]
