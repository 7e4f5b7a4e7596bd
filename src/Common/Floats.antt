-- ===== src/Common/Floats.antt =====
-- Floating point numbers as an interface: the operations of `f64` that a result depends on.
use Prim.Native.Nat.{ℕ, ◌+◌, ◌-◌, ◌*◌, ◌/◌, ◌^◌}
use mathlib.Core.Bool.{Bool}
use meetily_local.Common.Tests.{leb, ltb}

-- `literal n k` is the literal for `n / 10 ^ k`, and `of_usize` is `as f64`;
-- `as_secs_f64` takes a duration in nanoseconds.
pub record Float : Type 1 where
  pub F : Type 0
  pub literal : ℕ → ℕ → F
  pub of_usize : ℕ → F
  pub as_secs_f64 : ℕ → F
  pub add : F → F → F
  pub sub : F → F → F
  pub mul : F → F → F
  pub div : F → F → F
  pub le : F → F → Bool
  pub lt : F → F → Bool

-- Numbers of thousandths, which are not negative, for tests.
abbrev pub milliseconds : Float
milliseconds = record {
  F = ℕ;
  literal = λ n k. n * 1000 / 10 ^ k;
  of_usize = λ n. n * 1000;
  as_secs_f64 = λ n. n / 10 ^ 6;
  add = λ a b. a + b;
  sub = λ a b. a - b;
  mul = λ a b. a * b / 1000;
  div = λ a b. a * 1000 / b;
  le = leb;
  lt = ltb;
}
