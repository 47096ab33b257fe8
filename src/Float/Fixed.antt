-- ===== src/Float/Fixed.antt =====
-- A concrete reading of the float interface for tests and witnesses: exact decimals with four
-- places, an integer counting ten-thousandths. Quotients are cut towards zero.
use navier_stocks.Base.{
  ℕ, zero, suc, ◌+◌, ◌*◌, ◌/◌, ◌^◌, ◌-◌, ◌≤◌, ◌≡◌, ◌∙◌, true, ap, arith, leb, if◌then◌else◌,
}
use navier_stocks.Base.Int.{
  ℤ, pos, negsuc, pos_part, neg_part, ◌+ℤ◌, ◌-ℤ◌, ◌*ℤ◌, ◌/ℤ◌, ltb_ℤ, leb_ℤ, eqb_ℤ,
}
use navier_stocks.Float.{Float64, IsOrdered, IsExact, IsTruncating, IsCounting}

pub record Fixed : Type 0 where
  pub units : ℤ

abbrev scale : ℕ
scale = 10000

-- The largest root whose square is at most `n`, searched downwards.
root_from : ℕ → ℕ → ℕ
root_from zero n = 0
root_from (suc r) n = let less = root_from r n in if leb (suc r * suc r) n then suc r else less

abbrev fixed : ℤ → Fixed
fixed z = record { units = z }

instance unfoldable pub fixed_float : Float64 Fixed
unfolding ◌+ℤ◌ ◌-ℤ◌ ◌*ℤ◌ ◌/ℤ◌ root_from
fixed_float = record {
  lt = λ x y. ltb_ℤ x.units y.units;
  le = λ x y. leb_ℤ x.units y.units;
  eq = λ x y. eqb_ℤ x.units y.units;
  add = λ x y. fixed (x.units +ℤ y.units);
  sub = λ x y. fixed (x.units -ℤ y.units);
  mul = λ x y. fixed ((x.units *ℤ y.units) /ℤ pos scale);
  div = λ x y. fixed ((x.units *ℤ pos scale) /ℤ y.units);
  abs = λ x. fixed (pos (pos_part x.units + neg_part x.units));
  sqrt = λ x. fixed (pos (root_from 2000 (pos_part x.units * scale)));
  of_int = λ i. fixed (i *ℤ pos scale);
  to_int = λ x. x.units /ℤ pos scale;
  decimal = λ m e. fixed (pos (m * scale / 10 ^ e));
}

pub Fixed-IsOrdered : IsOrdered Fixed
unfolding fixed_float
Fixed-IsOrdered = record {
  le_trans = λ x y z. ground arith;
  le_total = λ x y p q. ground arith;
  lt-eq-not-le = λ x y p q. ground arith;
  number_of_le = λ x y p. ground arith;
  number_of_lt = λ x y p. ground arith;
}

-- Products and quotients of integers that are not negative.
pos-*ℤ : (m n : ℕ) → pos m *ℤ pos n ≡ pos (m * n)
unfolding ◌*ℤ◌
pos-*ℤ m n = ground arith

pos-/ℤ : (m n : ℕ) → pos m /ℤ pos n ≡ pos (m / n)
unfolding ◌/ℤ◌
pos-/ℤ m n = ground arith

mul_scaled : (m n : ℕ) → m * scale * (n * scale) / scale ≡ m * n * scale
mul_scaled m n = omega arith

mul_units :
    (m n : ℕ) → pos m *ℤ pos scale *ℤ (pos n *ℤ pos scale) /ℤ pos scale ≡ pos (m * n) *ℤ pos scale
mul_units m n = simp (pos-*ℤ, pos-/ℤ) (ap pos (mul_scaled m n))

decimal_units : (m : ℕ) → pos (m * scale / 1) ≡ pos m *ℤ pos scale
decimal_units m = rw (pos-*ℤ) (ground arith)

pub Fixed-IsExact : IsExact Fixed
unfolding fixed_float
Fixed-IsExact = record {
  lt-of_int = λ m n p q. ground arith;
  mul-of_int = λ m n p. ap fixed (mul_units m n);
  decimal-of_int = λ m p. ap fixed (decimal_units m);
}

floor_units :
    (z : ℤ)
    → leb_ℤ (pos 0) z ≡ true
    → (n : ℕ) × (z /ℤ pos scale ≡ pos n)
      × (leb_ℤ (pos n *ℤ pos scale) z ≡ true)
      × (ltb_ℤ z (pos (n + 1) *ℤ pos scale) ≡ true)
floor_units (pos u) h = (
  u / scale,
  pos-/ℤ u scale,
  ap (λ k. leb_ℤ k (pos u)) (pos-*ℤ (u / scale) scale) ∙ ground arith,
  ap (λ k. ltb_ℤ (pos u) k) (pos-*ℤ (u / scale + 1) scale) ∙ ground arith,
)
floor_units (negsuc u) h = ground arith

pub Fixed-IsTruncating : IsTruncating Fixed
unfolding fixed_float
Fixed-IsTruncating = record { to_int-floor = λ x h k. floor_units x.units h }

pos-+ℤ : (m n : ℕ) → pos m +ℤ pos n ≡ pos (m + n)
unfolding ◌+ℤ◌
pos-+ℤ m n = ground arith

pos--ℤ : (m n : ℕ) → n ≤ m → pos m -ℤ pos n ≡ pos (m - n)
unfolding ◌-ℤ◌
pos--ℤ m n h = ground arith

zero_quotient : (k : ℕ) → 0 * scale * scale / k ≡ 0
zero_quotient k = grind arith

pub Fixed-IsCounting : IsCounting Fixed
unfolding fixed_float
Fixed-IsCounting = record {
  add-of_int = λ m n p. simp (pos-*ℤ, pos-+ℤ) (ap (λ k. fixed (pos k)) (omega arith));
  sub-of_int = λ m n h p. simp pos-*ℤ (
      ap fixed (pos--ℤ (m * scale) (n * scale) (omega arith))
      ∙ ap (λ k. fixed (pos k)) (omega arith));
  div-zero = λ n h p. simp (pos-*ℤ, pos-/ℤ) (ap (λ k. fixed (pos k)) (zero_quotient (n * scale)));
}
