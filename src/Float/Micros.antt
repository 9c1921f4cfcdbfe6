-- ===== src/Float/Micros.antt =====
-- The interface `Float` at whole millionths: an instance that runs and meets the laws.
use equity_research_agent.Prelude.{
  ℕ, ◌+◌, ◌*◌, ◌/◌, ◌%◌, ◌^◌, true, ◌&&◌, ◌||◌, some, arith, ltb, eqb, if◌then◌else◌,
}
use equity_research_agent.Prelude.Int.{
  ℤ, pos, negsuc, ◌+ℤ◌, ◌-ℤ◌, ltb_ℤ, leb_ℤ, scale, neg, pos_part, neg_part,
}
use equity_research_agent.Float.Interface.{Float, FloatLaws}

abbrev unit : ℕ
unit = 1000000

-- a product with `b` for `b` of either sign
abbrev times_micros : ℤ → ℤ → ℤ
times_micros a (pos b) = scale a b unit
times_micros a (negsuc b) = neg (scale a (1 + b) unit)

abbrev over_micros : ℤ → ℤ → ℤ
over_micros a (pos b) = scale a unit b
over_micros a (negsuc b) = neg (scale a unit (1 + b))

-- the nearest whole number to `n / unit`, and the even one of two that are equally near
abbrev nearest : ℕ → ℕ
nearest n =
    let q = n / unit in
    let r = n % unit in if ltb unit (r + r) || (eqb (r + r) unit && eqb (q % 2) 1) then q + 1 else q

abbrev round_micros : ℤ → ℤ
round_micros (pos n) = pos (nearest n)
round_micros (negsuc n) = neg (pos (nearest (1 + n)))

-- A percentage is shown by its sign only: no theorem reads the text.
instance abbrev pub micros : Float ℤ
micros = record {
  lit = λ n k. pos (n * unit / 10 ^ k);
  plus = λ a b. a +ℤ b;
  minus = λ a b. a -ℤ b;
  times = times_micros;
  over = over_micros;
  neg = neg;
  le = leb_ℤ;
  lt = ltb_ℤ;
  is_finite = λ a. true;
  truncate = λ a. pos_part a / unit;
  round_int = λ a. some (round_micros a);
  of_int = λ n. scale n unit 1;
  one_decimal = λ a. if ltb (pos_part a) (neg_part a) then "-" else "+";
}

pub micros-FloatLaws : FloatLaws ℤ
unfolding ◌+ℤ◌ ◌-ℤ◌
micros-FloatLaws = record {
  numbers_of_le = λ x y h. (ground arith, ground arith);
  le_trans = λ x y z h k. ground arith;
  le_total = λ x y h k. ground arith;
  le_of_lt = λ x y h. ground arith;
  lt-eq-not-le = λ x y h k. ground arith;
  lit-IsNumber = λ n k. ground arith;
  sub_le_of_lt_add = λ c s p h. ground arith;
}
