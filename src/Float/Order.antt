-- ===== src/Float/Order.antt =====
-- Laws of `min` and `max` that follow from those of the comparison.
use equity_research_agent.Prelude.{arith}
use equity_research_agent.Float.Interface.{Float, FloatLaws, IsNumber, ◌≼◌, min_of, max_of}

module _ {F : Type 0} ⦃fl : Float F⦄ (laws : FloatLaws F) where
  open laws use {numbers_of_le, le_trans, le_total, le_of_lt, lt-eq-not-le}

  pub min-le-left : (a b : F) → IsNumber a → min_of a b ≼ a
  min-le-left a b h = ground (arith, le_of_lt b a)

  pub min-le-right : (a b : F) → IsNumber a → IsNumber b → min_of a b ≼ b
  min-le-right a b h k = ground (arith, lt-eq-not-le b a k h, le_of_lt b a)

  -- a minimum is a number where its first argument is one
  pub min-IsNumber : (a b : F) → IsNumber a → IsNumber (min_of a b)
  min-IsNumber a b h = (numbers_of_le (min_of a b) a (min-le-left a b h)).0

  pub le-max-left : (a b : F) → IsNumber a → a ≼ max_of a b
  le-max-left a b h = ground (arith, le_of_lt a b)
