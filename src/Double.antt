-- ===== src/Double.antt =====
-- The C types float and double and the functions of math.h, as far as the simulator uses them: a
-- parameter. A float is a double that `narrow` leaves as it is, and an operation on floats is the
-- operation on doubles with its result narrowed, which is what IEEE 754 gives for + - * and /.
use hpv_c.Base.{ℕ, ◌+◌, ◌-◌, ◌*◌, ◌/◌, ◌^◌, Bool, ◌≡◌, ltb, leb, not, arith, false, ◌⊎◌}

pub record Double (D : Type 0) : Type 0 where
  pub add : D → D → D
  pub sub : D → D → D
  pub mul : D → D → D
  pub div : D → D → D
  pub pow : D → D → D
  pub log : D → D
  -- `(a + b) / c` of long doubles, for a long double `b` that holds a double; a double again.
  pub share : D → D → D → D
  -- `lit m e` is the literal m / 10 ^ e
  pub lit : ℕ → ℕ → D
  pub narrow : D → D
  -- The conversions from an int that is not negative, and to one.
  pub of_int : ℕ → D
  pub to_int : D → ℕ
  pub lt : D → D → Bool
  pub le : D → D → Bool

module _ {D : Type 0} ⦃d : Double D⦄ where
  -- The operations on floats.
  abbrev pub add_float : D → D → D
  add_float a b = d.narrow (d.add a b)

  abbrev pub sub_float : D → D → D
  sub_float a b = d.narrow (d.sub a b)

  abbrev pub mul_float : D → D → D
  mul_float a b = d.narrow (d.mul a b)

  abbrev pub div_float : D → D → D
  div_float a b = d.narrow (d.div a b)

-- `<` on doubles that are no NaN.
pub record IsOrdered (D : Type 0) ⦃d : Double D⦄ : Type 0 where
  pub lt_irrefl : (a : D) → d.lt a a ≡ false
  -- `a ≥ b` and `b ≥ c` give `a ≥ c`
  pub ge_trans : (a b c : D) → d.lt a b ≡ false → d.lt b c ≡ false → d.lt a c ≡ false
  pub le_lem : (a b : D) → d.le a b ≡ not (d.lt b a)
  pub ge_total : (a b : D) → (d.lt a b ≡ false) ⊎ (d.lt b a ≡ false)

-- The laws can be met: thousandths, none below 0.
abbrev pub Milli : Type 0
Milli = ℕ

instance abbrev pub milli_double : Double Milli
milli_double = record {
  add = λ a b. a + b;
  sub = λ a b. a - b;
  mul = λ a b. a * b / 1000;
  div = λ a b. a * 1000 / b;
  pow = λ a b. (a / 1000) ^ (b / 1000) * 1000;
  log = λ a. a;
  share = λ a b c. (a + b) * 1000 / c;
  lit = λ m e. m * 1000 / 10 ^ e;
  narrow = λ a. a;
  of_int = λ n. n * 1000;
  to_int = λ a. a / 1000;
  lt = ltb;
  le = leb;
}

pub Milli-IsOrdered : IsOrdered Milli
Milli-IsOrdered = ground arith
