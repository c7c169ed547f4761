-- ===== src/Prelude/Totals.antt =====
-- Dicts as finite maps: keys once each, a property of every value, and totals over the values.
use Prim.Native.Nat.{ℕ, ◌+◌}
use mathlib.Core.Path.{◌≡◌, refl}
use mathlib.Core.Logic.{inl, inr}
use mathlib.Core.Option.{none, some}
use mathlib.Core.List.{[], ◌∷◌}
use native.Mathlib.Omega.{arith}
use forecastology.Prelude.Tests.{◌==◌, Bool-cases}
use forecastology.Prelude.Dicts.{Dict, lookup, insert, erase, lookup-insert, lookup-erase}

module _ {ℓ} {V : Type ℓ} where
  -- No key is listed twice.
  abbrev pub IsUnique : Dict V → Type ℓ
  IsUnique [] = Unit
  IsUnique ((k, v) ∷ d) = (lookup k d ≡ none) × IsUnique d

  pub insert-IsUnique : (k : ℕ) (v : V) (d : Dict V) → IsUnique d → IsUnique (insert k v d)
  unfolding insert
  insert-IsUnique k v [] h = (unfold lookup in refl, tt)
  insert-IsUnique k v ((j, w) ∷ d) h =
      ground (arith, insert-IsUnique k v d h.1, lookup-insert k j v d)

  pub erase-IsUnique : (k : ℕ) (d : Dict V) → IsUnique d → IsUnique (erase k d)
  unfolding erase
  erase-IsUnique k [] h = tt
  erase-IsUnique k ((j, w) ∷ d) h = ground (arith, erase-IsUnique k d h.1, lookup-erase k j d)

  pub erase_absent : (k : ℕ) (d : Dict V) → lookup k d ≡ none → erase k d ≡ d
  unfolding erase lookup
  erase_absent k [] h = refl
  erase_absent k ((j, w) ∷ d) h = ground (arith, erase_absent k d)

  pub erase-insert_new :
      (k : ℕ) (v : V) (d : Dict V) → lookup k d ≡ none → erase k (insert k v d) ≡ d
  unfolding erase insert lookup
  erase-insert_new k v [] h = ground arith
  erase-insert_new k v ((j, w) ∷ d) h = ground (arith, erase-insert_new k v d, erase_absent k d)

module _ {ℓ κ} {V : Type ℓ} (P : V → Type κ) where
  abbrev pub AllValues : Dict V → Type κ
  AllValues [] = Unit
  AllValues ((k, v) ∷ d) = P v × AllValues d

  pub insert-AllValues : (k : ℕ) (v : V) (d : Dict V) → P v → AllValues d → AllValues (insert k v d)
  unfolding insert
  insert-AllValues k v [] p h = (p, tt)
  insert-AllValues k v ((j, w) ∷ d) p h = ground (arith, insert-AllValues k v d p h.1)

  pub erase-AllValues : (k : ℕ) (d : Dict V) → AllValues d → AllValues (erase k d)
  unfolding erase
  erase-AllValues k [] h = tt
  erase-AllValues k ((j, w) ∷ d) h = ground (arith, erase-AllValues k d h.1)

  pub lookup-AllValues : (k : ℕ) (v : V) (d : Dict V) → AllValues d → lookup k d ≡ some v → P v
  unfolding lookup
  lookup-AllValues k v [] h e = cc
  lookup-AllValues k v ((j, w) ∷ d) h e = elim (Bool-cases (j == k)) [
    | inl same ↦ (let eq : w ≡ v = ground arith in rw (← eq) h.0)
    | inr other ↦ lookup-AllValues k v d h.1 (ground arith)
  ]

module _ {ℓ} {V : Type ℓ} (f : V → ℕ) where
  unfoldable pub total : Dict V → ℕ
  total [] = 0
  total ((k, v) ∷ d) = f v + total d

  pub total-insert_new :
      (k : ℕ) (v : V) (d : Dict V) → lookup k d ≡ none → total (insert k v d) ≡ f v + total d
  unfolding total insert lookup
  total-insert_new k v [] h = refl
  total-insert_new k v ((j, w) ∷ d) h = ground (arith, total-insert_new k v d)

  pub total-erase :
      (k : ℕ) (v : V) (d : Dict V)
      → IsUnique d
      → lookup k d ≡ some v
      → total (erase k d) + f v ≡ total d
  unfolding total erase lookup
  total-erase k v [] u h = cc
  total-erase k v ((j, w) ∷ d) u h = ground (arith, total-erase k v d u.1, erase_absent k d)

  pub total-insert_over :
      (k : ℕ) (v w : V) (d : Dict V)
      → lookup k d ≡ some w
      → total (insert k v d) + f w ≡ total d + f v
  unfolding total insert lookup
  total-insert_over k v w [] h = cc
  total-insert_over k v w ((j, x) ∷ d) h = ground (arith, total-insert_over k v w d)
