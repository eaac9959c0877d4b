-- ===== src/Base/Float.antt =====
-- float64 as a type with the operations that the program applies to it. Dollar amounts, rates and
-- costs are float64 values, and nothing here computes with their bits: the type and its operations
-- are a parameter, and a theorem that needs an IEEE 754 fact takes it as a hypothesis.
use Prim.Native.Nat.{ℕ, ◌+◌, ◌*◌, ◌-◌, ◌/◌, ◌^◌}
use mathlib.Core.Bool.{Bool}
use riskkernel.Base.Bools.{ltb, leb}
use riskkernel.Base.Int.{ℤ, pos_part}

pub record Float64 (D : Type 0) : Type 0 where
  pub zero_f : D
  pub add_f : D → D → D
  pub sub_f : D → D → D
  pub mul_f : D → D → D
  pub div_f : D → D → D
  -- `a < b` and `a <= b`
  pub lt_f : D → D → Bool
  pub le_f : D → D → Bool
  -- the conversion `float64(n)`
  pub of_int : ℤ → D
  -- the decimal literal `n / 10^e`
  pub decimal : ℕ → ℕ → D

-- Amounts in millionths as natural numbers, for the runs on concrete inputs.
abbrev pub micros : Float64 ℕ
micros = record {
  zero_f = 0;
  add_f = λ a b. a + b;
  sub_f = λ a b. a - b;
  mul_f = λ a b. a * b / 1000000;
  div_f = λ a b. a * 1000000 / b;
  lt_f = ltb;
  le_f = leb;
  of_int = λ n. pos_part n * 1000000;
  decimal = λ n e. n * 1000000 / 10 ^ e;
}
