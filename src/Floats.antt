-- ===== src/Floats.antt =====
-- `f32` and `f64`, which the source computes with and does not implement: the types and the
-- operations are a parameter of the model. The laws of IEEE 754 that a theorem needs are its hypothesis
-- `IsOrdered`.
use hansa.Prelude.{
  ℕ, ◌+◌, ◌-◌, ◌*◌, ◌/◌, min, max, ◌%◌, List, [], ◌∷◌, ◌≡◌, Bool, true, false, arith, ltb, leb,
  ◌==◌,
}

pub record Floats : Type 1 where
  pub F32 : Type 0
  pub F64 : Type 0
  -- comparisons and tests of `f32`; on a NaN each of the comparisons is false
  pub lt : F32 → F32 → Bool
  pub ge : F32 → F32 → Bool
  pub is_zero : F32 → Bool
  pub is_finite : F32 → Bool
  pub infinity : F32
  pub neg_infinity : F32
  -- arithmetic of `f32`
  pub of_u64 : ℕ → F32
  pub milli : F32
  pub half : F32
  pub four_fifths : F32
  pub day : F32
  pub add : F32 → F32 → F32
  pub sub : F32 → F32 → F32
  pub mul : F32 → F32 → F32
  pub div : F32 → F32 → F32
  pub neg : F32 → F32
  pub min32 : F32 → F32 → F32
  pub sqrt : F32 → F32
  pub exp : F32 → F32
  pub log2 : F32 → F32
  pub max32 : F32 → F32 → F32
  -- `x.ceil() as u64`
  pub ceil_u64 : F32 → ℕ
  -- `format!("{:.N$}")`, as the codes of its characters
  pub decimals : ℕ → F32 → List ℕ
  -- `f64`, with `x as f64` and `x.floor() as u32`
  pub to_f64 : F32 → F64
  pub of_u32 : ℕ → F64
  pub add64 : F64 → F64 → F64
  pub mul64 : F64 → F64 → F64
  pub div64 : F64 → F64 → F64
  pub floor_u32 : F64 → ℕ
  pub lt64 : F64 → F64 → Bool
  pub le64 : F64 → F64 → Bool
  pub is_finite64 : F64 → Bool
  pub infinity64 : F64
  pub sub64 : F64 → F64 → F64
  pub abs64 : F64 → F64
  -- the f64 nearest to 0.001
  pub milli64 : F64

-- What IEEE 754 gives of `<`, NaNs included.
pub record IsOrdered (f : Floats) : Type 0 where
  pub lt_irrefl : (x : f.F32) → f.lt x x ≡ false
  pub lt_trans : (x y z : f.F32) → f.lt x y ≡ true → f.lt y z ≡ true → f.lt x z ≡ true

-- Whole numbers in thousandths serve as floats where a test has to run.
abbrev pub thousandths : Floats
thousandths = record {
  F32 = ℕ;
  F64 = ℕ;
  lt = ltb;
  ge = λ a b. leb b a;
  is_zero = λ a. a == 0;
  is_finite = λ a. true;
  infinity = 1_000_000_000;
  neg_infinity = 0;
  of_u64 = λ n. n * 1000;
  milli = 1;
  half = 500;
  four_fifths = 800;
  day = 86_400_000;
  add = λ a b. a + b;
  sub = λ a b. a - b;
  mul = λ a b. a * b / 1000;
  div = λ a b. a * 1000 / b;
  neg = λ a. 0;
  min32 = min;
  sqrt = λ a. a;
  exp = λ a. 1000;
  log2 = λ a. a;
  max32 = max;
  ceil_u64 = λ a. (a + 999) / 1000;
  decimals = λ places a. b'0' ∷ b'.' ∷ (48 + a / 100 % 10) ∷ [];
  to_f64 = λ a. a;
  of_u32 = λ n. n * 1000;
  add64 = λ a b. a + b;
  mul64 = λ a b. a * b / 1000;
  div64 = λ a b. a * 1000 / b;
  floor_u32 = λ a. a / 1000;
  lt64 = ltb;
  le64 = leb;
  is_finite64 = λ a. true;
  infinity64 = 1_000_000_000;
  sub64 = λ a b. a - b;
  abs64 = λ a. a;
  milli64 = 1;
}

pub thousandths-IsOrdered : IsOrdered thousandths
thousandths-IsOrdered = record {
  lt_irrefl = λ x. ground arith;
  lt_trans = λ x y z h k. ground (arith, h, k);
}
