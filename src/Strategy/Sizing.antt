-- ===== src/Strategy/Sizing.antt =====
-- The martingale sizes: `hedge_policy` of core/state_machine.py.
use forecastology.Prelude.{
  ℕ, zero, suc, ◌+◌, ◌-◌, ◌*◌, ◌^◌, ◌≤◌, ◌<◌, ◌≡◌, refl, sym, ap, ◌∙◌, inl, inr, Bool, true, false,
  arith, ltb, if◌then◌else◌, Bool-cases,
}
use forecastology.Prelude.Int.{ℤ, pos, negsuc}
use native.Mathlib.Nat.{pow-suc, zero-add, suc-add, add-zero}

-- `max(int(hedge_max_factor), 1)`
abbrev pub levels : ℤ → ℕ
levels (pos n) = if ltb 1 n then n else 1
levels (negsuc n) = 1

pub record HedgePolicy : Type 0 where
  pub next_qty : ℕ
  pub is_allowed : Bool
  pub max_allowed_qty : ℕ

unfoldable pub hedge_policy : ℕ → ℤ → ℕ → HedgePolicy
hedge_policy initial_qty hedge_max_factor stop_loss_count = record {
  next_qty =
      if ltb stop_loss_count (levels hedge_max_factor)
      then initial_qty * 2 ^ stop_loss_count
      else 0;
  is_allowed = ltb stop_loss_count (levels hedge_max_factor);
  max_allowed_qty = initial_qty * 2 ^ (levels hedge_max_factor - 1);
}

-- The contracts bought at the first `k` levels of a losing streak.
pub streak : ℕ → ℤ → ℕ → ℕ
streak initial factor zero = 0
streak initial factor (suc k) = streak initial factor k + (hedge_policy initial factor k).next_qty

double : (k : ℕ) → 2 ^ suc k ≡ 2 * 2 ^ k
double k = omega (arith, pow-suc 2 k)

pow_mono : (k d : ℕ) → 2 ^ k ≤ 2 ^ (d + k)
pow_mono k zero = rw zero-add (omega arith)
pow_mono k (suc d) = rw suc-add (omega (arith, pow_mono k d, double (d + k)))

pow_le : (k m : ℕ) → k ≤ m → 2 ^ k ≤ 2 ^ m
pow_le k m h = let e : m - k + k ≡ m = omega arith in rw (← e) (pow_mono k (m - k))

scaled_le : (a x y : ℕ) → x ≤ y → a * x ≤ a * y
scaled_le a x y h = grind arith

level_pos : (f : ℤ) → 0 < levels f
level_pos f = ground arith

-- No entry is larger than the maximum that the policy states, and that maximum is bought at the last
-- level that is allowed.
pub hedge_policy_bounds :
    (initial : ℕ) (factor : ℤ) (count : ℕ)
    → ((hedge_policy initial factor count).next_qty
        ≤ (hedge_policy initial factor count).max_allowed_qty)
      × ((hedge_policy initial factor (levels factor - 1)).next_qty
          ≡ (hedge_policy initial factor count).max_allowed_qty)
      × ((hedge_policy initial factor (levels factor - 1)).is_allowed ≡ true)
unfolding hedge_policy
hedge_policy_bounds initial factor count =
    let least = level_pos factor in
    (
      elim (Bool-cases (ltb count (levels factor))) [
        | inl allowed ↦ rw allowed (
            scaled_le initial (2 ^ count) (2 ^ (levels factor - 1))
              (pow_le count (levels factor - 1) (ground arith)))
        | inr denied ↦ rw denied (omega arith)
      ],
      ground arith,
      ground arith,
    )

-- Each further loss doubles the size as long as the policy allows an entry.
pub hedge_policy_doubles :
    (initial : ℕ) (factor : ℤ) (count : ℕ)
    → (hedge_policy initial factor (suc count)).is_allowed ≡ true
    → ((hedge_policy initial factor count).is_allowed ≡ true)
      × ((hedge_policy initial factor (suc count)).next_qty
          ≡ 2 * (hedge_policy initial factor count).next_qty)
unfolding hedge_policy
hedge_policy_doubles initial factor count h =
    let now : ltb count (levels factor) ≡ true = ground arith in
    (now, rw (h, now) (omega (arith, ap (λ (t : ℕ). initial * t) (double count))))

streak_eq :
    (initial : ℕ) (factor : ℤ) (k : ℕ)
    → k ≤ levels factor
    → streak initial factor k + initial ≡ initial * 2 ^ k
unfolding streak hedge_policy
streak_eq initial factor zero h = omega arith
streak_eq initial factor (suc k) h =
    let allowed : ltb k (levels factor) ≡ true = ground arith in
    rw allowed (
      omega
        (arith, streak_eq initial factor k (omega arith), ap (λ (t : ℕ). initial * t) (double k)))

streak_stops :
    (initial : ℕ) (factor : ℤ) (d : ℕ)
    → streak initial factor (d + levels factor) ≡ streak initial factor (levels factor)
streak_stops initial factor zero = rw zero-add refl
streak_stops initial factor (suc d) =
    rw suc-add (
      unfold streak hedge_policy in
      let denied : ltb (d + levels factor) (levels factor) ≡ false = ground arith in
      rw denied (add-zero (streak initial factor (d + levels factor))))
    ∙ streak_stops initial factor d

streak_all :
    (initial : ℕ) (factor : ℤ) (count : ℕ)
    → streak initial factor (levels factor) + initial
      ≡ 2 * (hedge_policy initial factor count).max_allowed_qty
unfolding hedge_policy
streak_all initial factor count =
    let last : suc (levels factor - 1) ≡ levels factor =
      (let least = level_pos factor in omega arith) in
    let whole : 2 ^ levels factor ≡ 2 * 2 ^ (levels factor - 1) =
      (ap (λ (t : ℕ). 2 ^ t) (sym last) ∙ double (levels factor - 1)) in
    omega (
      arith,
      streak_eq initial factor (levels factor) (omega arith),
      ap (λ (t : ℕ). initial * t) whole,
    )

streak_le :
    (initial : ℕ) (factor : ℤ) (k : ℕ)
    → streak initial factor k ≤ streak initial factor (levels factor)
streak_le initial factor k = elim (Bool-cases (ltb (levels factor) k)) [
  | inl longer ↦
      let e : k - levels factor + levels factor ≡ k = ground arith in
      rw (← e, streak_stops initial factor (k - levels factor)) (omega arith)
  | inr within ↦
      let h : k ≤ levels factor = ground arith in
      let most = scaled_le initial (2 ^ k) (2 ^ levels factor) (pow_le k (levels factor) h) in
      omega (
        arith,
        streak_eq initial factor k h,
        streak_eq initial factor (levels factor) (omega arith),
      )
]

-- However long the losing streak, the contracts bought in it and one more initial entry are at most
-- twice the largest entry, and they are exactly that after a streak of all levels.
pub streak_bound :
    (initial : ℕ) (factor : ℤ) (k count : ℕ)
    → (streak initial factor k + initial ≤ 2 * (hedge_policy initial factor count).max_allowed_qty)
      × (streak initial factor (levels factor) + initial
          ≡ 2 * (hedge_policy initial factor count).max_allowed_qty)
streak_bound initial factor k count =
    let whole = streak_all initial factor count in
    let most = streak_le initial factor k in (omega arith, whole)
