-- ===== src/Floats.antt =====
-- `f32`, taken as a parameter: the carrier and the operations that the program applies to scores.
-- Code that only moves, compares and sorts scores needs no law of them; a theorem that needs one
-- has it as a hypothesis. `milli` is fixed-point arithmetic in thousandths, for the examples.
use Prim.Native.Nat.{Ordering, compare}
use klams.Common.{ℕ, ◌+◌, ◌-◌, ◌*◌, ◌/◌, Bool, true, false, Option, some}

pub record F32 : Type 1 where
  pub Float : Type 0
  -- `partial_cmp`; `none` if an argument is NaN
  pub partial_cmp : Float → Float → Option Ordering
  -- `n as f32`
  pub of_nat : ℕ → Float
  -- `x as u32`
  pub to_u32 : Float → ℕ
  pub add : Float → Float → Float
  pub sub : Float → Float → Float
  pub mul : Float → Float → Float
  pub div : Float → Float → Float
  pub sqrt : Float → Float
  -- the literal `1 / n`, such as `0.10`, and `f32::EPSILON`
  pub recip : ℕ → Float
  pub epsilon : Float

-- `a.partial_cmp(&b).unwrap_or(Ordering::Equal)`
abbrev pub or_equal : Option Ordering → Ordering
or_equal Option.none = Ordering.eq
or_equal (some o) = o

abbrev pub is_greater : Ordering → Bool
is_greater Ordering.gt = true
is_greater Ordering.eq = false
is_greater Ordering.lt = false

abbrev pub milli : F32
milli = record {
  Float = ℕ;
  partial_cmp = λ a b. some (compare a b);
  of_nat = λ n. n * 1000;
  to_u32 = λ x. x / 1000;
  add = λ a b. a + b;
  sub = λ a b. a - b;
  mul = λ a b. a * b / 1000;
  div = λ a b. a * 1000 / b;
  sqrt = λ a. a;
  recip = λ n. 1000 / n;
  epsilon = 0;
}
