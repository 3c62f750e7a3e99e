-- ===== src/Prelude/Floats.antt =====
-- Go's float64 as an interface: the operations that the program uses, and the order laws of IEEE 754
-- on the values that are numbers. `milli n` is the constant n / 1000 of the source.
use Prim.Native.Nat.{ℕ, ◌≤◌, ◌+◌, ◌-◌, ◌*◌, ◌/◌}
use mathlib.Core.Path.{◌≡◌}
use mathlib.Core.Bool.{Bool, true, false}
use native.Mathlib.Omega.{arith}
use g_lm.Prelude.Tests.{leb, ltb, ◌==◌, if◌then◌else◌}

pub record Float64 : Type 1 where
  pub F : Type 0
  pub lt : F → F → Bool
  pub le : F → F → Bool
  pub milli : ℕ → F
  pub of_int : ℕ → F
  pub add : F → F → F
  pub sub : F → F → F
  pub mul : F → F → F
  pub div : F → F → F
  pub abs : F → F
  pub max : F → F → F
  pub min : F → F → F
  pub neg : F → F
  pub exp : F → F
  -- math.Round
  pub round : F → F
  pub eq : F → F → Bool
  pub sqrt : F → F
  pub log : F → F
  -- math.Inf(1)
  pub inf : F
  -- int(v), at a value that is not negative
  pub trunc : F → ℕ
  -- strconv: to three decimals and back
  pub round3 : F → F

-- The order of the values other than NaN is total, and a constant of the source keeps its place.
pub record IsOrdered (fl : Float64) : Type 1 where
  pub IsNumber : fl.F → Type 0
  pub milli_number : (n : ℕ) → IsNumber (fl.milli n)
  pub not-lt_of_le : (a b : fl.F) → fl.le a b ≡ true → fl.lt b a ≡ false
  pub le_of_not-lt : (a b : fl.F) → IsNumber a → IsNumber b → fl.lt a b ≡ false → fl.le b a ≡ true
  pub le_refl : (a : fl.F) → IsNumber a → fl.le a a ≡ true
  pub le_trans : (a b c : fl.F) → fl.le a b ≡ true → fl.le b c ≡ true → fl.le a c ≡ true
  pub milli_mono : (m n : ℕ) → m ≤ n → fl.le (fl.milli m) (fl.milli n) ≡ true
  pub le_max : (a b : fl.F) → IsNumber a → IsNumber b → fl.le a (fl.max a b) ≡ true

-- math.Round(v*1000) / 1000
module _ (fl : Float64) where
  open fl use {F, milli, mul, div, round}

  unfoldable pub round_milli : F → F
  round_milli v = div (round (mul v (milli 1000000))) (milli 1000000)

-- clamp01 of the packages metareasoning, memorydynamics and state: the order of the two tests differs
-- between them, and does not matter.
module _ (fl : Float64) where
  open fl use {F, lt, le, milli}

  unfoldable pub clamp01 : F → F
  clamp01 v = if lt v (milli 0) then milli 0 else if lt (milli 1000) v then milli 1000 else v

  abbrev pub InUnit : F → Type 0
  InUnit v = (le (milli 0) v ≡ true) × (le v (milli 1000) ≡ true)

  module _ (o : IsOrdered fl) where
    pub clamp01-InUnit : (v : F) → o.IsNumber v → InUnit (clamp01 v)
    unfolding clamp01
    clamp01-InUnit v n = ground (
      arith,
      o.milli_mono 0 0,
      o.milli_mono 0 1000,
      o.milli_mono 1000 1000,
      o.le_of_not-lt v (milli 0) n (o.milli_number 0),
      o.le_of_not-lt (milli 1000) v (o.milli_number 1000) n,
    )

    pub clamp01_of_InUnit : (v : F) → InUnit v → clamp01 v ≡ v
    unfolding clamp01
    clamp01_of_InUnit v h =
        ground (arith, o.not-lt_of_le (milli 0) v h.0, o.not-lt_of_le v (milli 1000) h.1)

-- Thousandths that are not negative: a difference stops at zero, and so does a negation.
abbrev pub thousandths : Float64
thousandths = record {
  F = ℕ;
  lt = ltb;
  le = leb;
  milli = λ n. n;
  of_int = λ n. n * 1000;
  add = λ a b. a + b;
  sub = λ a b. a - b;
  mul = λ a b. a * b / 1000;
  div = λ a b. a * 1000 / b;
  abs = λ a. a;
  max = λ a b. if ltb a b then b else a;
  min = λ a b. if ltb a b then a else b;
  neg = λ a. 0;
  exp = λ a. 1000;
  round = λ a. a;
  eq = λ a b. a == b;
  sqrt = λ a. a;
  log = λ a. a;
  inf = 1000000000;
  trunc = λ a. a / 1000;
  round3 = λ a. a;
}

module _ (a b : ℕ) where
  pub not-lt_of_leb : leb a b ≡ true → ltb b a ≡ false
  not-lt_of_leb h = ground arith

  pub leb_of_not-lt : ltb a b ≡ false → leb b a ≡ true
  leb_of_not-lt h = ground arith

  pub leb_refl : leb a a ≡ true
  leb_refl = ground arith

  pub leb_trans : (c : ℕ) → leb a b ≡ true → leb b c ≡ true → leb a c ≡ true
  leb_trans c h k = ground arith

  pub leb_max : leb a (if ltb a b then b else a) ≡ true
  leb_max = ground arith

  pub leb_of_le : a ≤ b → leb a b ≡ true
  leb_of_le h = ground arith

abbrev pub thousandths-IsOrdered : IsOrdered thousandths
thousandths-IsOrdered = record {
  IsNumber = λ _. Unit {0};
  milli_number = λ _. tt;
  not-lt_of_le = not-lt_of_leb;
  le_of_not-lt = λ a b _ _. leb_of_not-lt a b;
  le_refl = λ a _. leb_refl a a;
  le_trans = leb_trans;
  milli_mono = leb_of_le;
  le_max = λ a b _ _. leb_max a b;
}

product_small : (b v : ℕ) → v ≤ 1000 → b * v ≤ b * 1000
product_small b v h = grind arith

pub share_small : (b v : ℕ) → leb v 1000 ≡ true → b * v / 1000 ≤ b
share_small b v h = let k : v ≤ 1000 = ground arith in omega (arith, product_small b v k)

pub mul_small : (v w : ℕ) → leb v 1000 ≡ true → leb w 1000 ≡ true → leb (v * w / 1000) 1000 ≡ true
mul_small v w h k = ground (arith, share_small v w k)

pub always : (v : ℕ) → leb 0 v ≡ true
always v = ground arith
