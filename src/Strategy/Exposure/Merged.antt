-- ===== src/Strategy/Exposure/Merged.antt =====
-- What merging holdings keeps.
use forecastology.Prelude.{
  ℕ, ◌≤◌, ◌≡◌, Option, none, some, [], ◌∷◌, Dict, lookup, ◌==◌, arith, Bool-cases, Option-cases,
  inl, inr, lookup-insert,
}
use forecastology.Prelude.Totals.{total, total-insert_new, total-insert_over}
use forecastology.Strategy.Ownership.{at_least_zero}
use forecastology.Strategy.Exposure.{Holding, Given, quantity_of, is_larger, merge_one, merge}

-- The quantity that is held of a ticker.
abbrev pub quantity_at : Option Holding → ℕ
quantity_at none = 0
quantity_at (some h) = h.quantity

total-merge_one :
    (t : ℕ) (g : Given) (out : Dict Holding)
    → total quantity_of out ≤ total quantity_of (merge_one t g out)
unfolding merge_one is_larger
total-merge_one t g out =
    let new : Holding = record { quantity = at_least_zero g.quantity; price = g.price } in
    elim (Option-cases (lookup t out)) [
      | inl absent ↦ ground (arith, total-insert_new quantity_of t new out absent)
      | inr (h, e) ↦ ground (arith, total-insert_over quantity_of t new h out e)
    ]

-- Merging takes nothing away.
pub total-merge :
    (out : Dict Holding) (extra : Dict Given)
    → total quantity_of out ≤ total quantity_of (merge out extra)
unfolding merge
total-merge out [] = omega arith
total-merge out ((t, g) ∷ extra) =
    let here = total-merge_one t g out in
    let later = total-merge (merge_one t g out) extra in omega arith

lookup-merge_one :
    (j t : ℕ) (g : Given) (out : Dict Holding)
    → quantity_at (lookup j out) ≤ quantity_at (lookup j (merge_one t g out))
unfolding merge_one is_larger
lookup-merge_one j t g out =
    ground (
      arith,
      lookup-insert t j (record { quantity = at_least_zero g.quantity; price = g.price }) out,
    )

lookup-merge_same :
    (t : ℕ) (g : Given) (out : Dict Holding)
    → at_least_zero g.quantity ≤ quantity_at (lookup t (merge_one t g out))
unfolding merge_one is_larger
lookup-merge_same t g out =
    ground (
      arith,
      lookup-insert t t (record { quantity = at_least_zero g.quantity; price = g.price }) out,
    )

lookup-merge :
    (j : ℕ) (out : Dict Holding) (extra : Dict Given)
    → quantity_at (lookup j out) ≤ quantity_at (lookup j (merge out extra))
unfolding merge
lookup-merge j out [] = omega arith
lookup-merge j out ((t, g) ∷ extra) =
    let here = lookup-merge_one j t g out in
    let later = lookup-merge j (merge_one t g out) extra in omega arith

-- A merged holding has at least the quantity that was given for it.
pub lookup-merge_given :
    (t : ℕ) (out : Dict Holding) (extra : Dict Given) {g : Given}
    → lookup t extra ≡ some g
    → at_least_zero g.quantity ≤ quantity_at (lookup t (merge out extra))
unfolding merge lookup
lookup-merge_given t out [] {g} e = absurd (ground (arith, e))
lookup-merge_given t out ((j, f) ∷ extra) {g} e = elim (Bool-cases (j == t)) [
  | inl same ↦
      let eq : f ≡ g = ground arith in
      let named : j ≡ t = ground arith in
      let here = lookup-merge_same t g out in
      let later = lookup-merge t (merge_one t g out) extra in rw (eq, named) (omega arith)
  | inr other ↦ lookup-merge_given t (merge_one j f out) extra {g = g} (ground arith)
]

pub lookup-total : (t : ℕ) (d : Dict Holding) → quantity_at (lookup t d) ≤ total quantity_of d
unfolding total lookup
lookup-total t [] = omega arith
lookup-total t ((j, h) ∷ d) = ground (arith, lookup-total t d)
