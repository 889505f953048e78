-- ===== src/Prelude/Float.antt =====
-- Python's `float`, which the development does not implement: a type with the operations that the
-- servers use, as a parameter, and the laws that a theorem relies on.
use rdparty_as_poc.Prelude.{◌+◌, ◌/◌, ◌≡◌, Bool, true, not, ◌||◌, arith, leb, ◌==◌, if◌then◌else◌}
use rdparty_as_poc.Prelude.Int.{
  ℤ, pos, negsuc, pos_part, neg_part, ◌+ℤ◌, ◌-ℤ◌, ◌*ℤ◌, ltb_ℤ, -ℤ_parts,
}

pub record Floats : Type 1 where
  pub Float : Type 0
  -- `0.0`
  pub zero : Float
  pub ltb : Float → Float → Bool
  pub leb : Float → Float → Bool
  pub add : Float → Float → Float
  pub sub : Float → Float → Float
  pub mul : Float → Float → Float
  pub div : Float → Float → Float
  -- `math.pow(0.5, x)`
  pub half_power : Float → Float

-- The order of floats that are no NaN. Subtraction rounds, and rounding keeps the order.
pub record IsOrdered (f : Floats) : Type 0 where
  pub leb_refl : (a : f.Float) → f.leb a a ≡ true
  pub leb_trans : (a b c : f.Float) → f.leb a b ≡ true → f.leb b c ≡ true → f.leb a c ≡ true
  pub leb_total : (a b : f.Float) → (f.leb a b || f.leb b a) ≡ true
  pub ltb_leb : (a b : f.Float) → f.ltb a b ≡ not (f.leb b a)
  pub sub_mono : (a b w : f.Float) → f.leb a b ≡ true → f.leb (f.sub a w) (f.sub b w) ≡ true

-- Whole numbers, rounded towards zero, meet the laws.
abbrev leb_ℤ : ℤ → ℤ → Bool
leb_ℤ a b = leb (pos_part a + neg_part b) (pos_part b + neg_part a)

abbrev div_ℤ : ℤ → ℤ → ℤ
div_ℤ a (pos n) = if ltb_ℤ a (pos 0) then pos 0 -ℤ pos (neg_part a / n) else pos (pos_part a / n)
div_ℤ a (negsuc n) = pos 0

abbrev half_power_ℤ : ℤ → ℤ
half_power_ℤ (pos n) = if n == 0 then pos 1 else pos 0
half_power_ℤ (negsuc n) = pos 2

abbrev pub whole_numbers : Floats
whole_numbers = record {
  Float = ℤ;
  zero = pos 0;
  ltb = ltb_ℤ;
  leb = leb_ℤ;
  add = ◌+ℤ◌;
  sub = ◌-ℤ◌;
  mul = ◌*ℤ◌;
  div = div_ℤ;
  half_power = half_power_ℤ;
}

pub whole_numbers-IsOrdered : IsOrdered whole_numbers
whole_numbers-IsOrdered = record {
  leb_refl = λ a. ground arith;
  leb_trans = λ a b c h k. ground arith;
  leb_total = λ a b. ground arith;
  ltb_leb = λ a b. ground arith;
  sub_mono = λ a b w h. ground (arith, -ℤ_parts a w, -ℤ_parts b w);
}
