-- ===== src/Float/Interface.antt =====
-- Python's `float`: what the code does with one, and the laws of the IEEE comparison that the
-- theorems rest on. A NaN is the value that is not `<=` itself.
use equity_research_agent.Prelude.{
  ℕ, ◌≡◌, ◌⊎◌, Bool, true, not, List, foldl, String, Option, none, some, if◌then◌else◌,
}
use equity_research_agent.Prelude.Int.{ℤ}

pub record Float (F : Type 0) : Type 0 where
  -- the literal `n / 10 ^ k`
  pub lit : ℕ → ℕ → F
  pub plus : F → F → F
  pub minus : F → F → F
  pub times : F → F → F
  pub over : F → F → F
  pub neg : F → F
  pub le : F → F → Bool
  pub lt : F → F → Bool
  -- `math.isfinite(x)`
  pub is_finite : F → Bool
  -- `int(x)`
  pub truncate : F → ℕ
  -- `int(round(x))`, which raises on a NaN or an infinity
  pub round_int : F → Option ℤ
  -- the float of an `int`
  pub of_int : ℤ → F
  -- `f"{x:.1f}"`
  pub one_decimal : F → String

module _ {F : Type 0} ⦃fl : Float F⦄ where
  abbrev pub zero_f : F
  zero_f = fl.lit 0 0

  abbrev pub one_f : F
  one_f = fl.lit 1 0

  -- Python's `max(a, b)` and `min(a, b)`: the first of two that compare equal
  abbrev pub max_of : F → F → F
  max_of a b = if fl.lt a b then b else a

  abbrev pub min_of : F → F → F
  min_of a b = if fl.lt b a then b else a

  abbrev pub abs_of : F → F
  abs_of a = if fl.lt a zero_f then fl.neg a else a

  -- `sum(xs)` adds from the left
  abbrev pub sum_of : List F → F
  sum_of = foldl fl.plus zero_f

  -- `x or 0.0` on a value of `float | None`
  abbrev pub or_zero : Option F → F
  or_zero none = zero_f
  or_zero (some x) = x

  abbrev pub IsNumber : F → Type 0
  IsNumber x = fl.le x x ≡ true

  infix 4 ◌≼◌
  abbrev pub ◌≼◌ : F → F → Type 0
  x ≼ y = fl.le x y ≡ true

-- IEEE 754 comparison. The order is total only away from NaN. The last law holds since rounding
-- is monotone: where `s + p` rounds above `c`, the exact `c - s` is below `p`.
pub record FloatLaws (F : Type 0) ⦃fl : Float F⦄ : Type 0 where
  pub numbers_of_le : (x y : F) → x ≼ y → IsNumber x × IsNumber y
  pub le_trans : (x y z : F) → x ≼ y → y ≼ z → x ≼ z
  pub le_total : (x y : F) → IsNumber x → IsNumber y → (x ≼ y) ⊎ (y ≼ x)
  pub le_of_lt : (x y : F) → fl.lt x y ≡ true → x ≼ y
  pub lt-eq-not-le : (x y : F) → IsNumber x → IsNumber y → fl.lt x y ≡ not (fl.le y x)
  pub lit-IsNumber : (n k : ℕ) → IsNumber (fl.lit n k)
  pub sub_le_of_lt_add : (c s p : F) → fl.lt c (fl.plus s p) ≡ true → fl.minus c s ≼ p
