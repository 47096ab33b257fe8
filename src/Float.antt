-- ===== src/Float.antt =====
-- Go's float64, as far as the program uses it: the operations as an interface, and the documented
-- facts of IEEE 754 that some theorems need as records of laws over it.
pub mod Fixed
use navier_stocks.Base.{
  ℕ, ◌+◌, ◌-◌, ◌*◌, ◌^◌, ◌<◌, ◌≤◌, ◌≡◌, Bool, true, false, not, ◌⊎◌, ltb, leb, ◌==◌,
}
use navier_stocks.Base.Int.{ℤ, pos}

pub record Float64 (F : Type 0) : Type 0 where
  pub lt : F → F → Bool
  pub le : F → F → Bool
  pub eq : F → F → Bool
  pub add : F → F → F
  pub sub : F → F → F
  pub mul : F → F → F
  pub div : F → F → F
  -- math.Abs and math.Sqrt
  pub abs : F → F
  pub sqrt : F → F
  -- float64(i), and int(f)
  pub of_int : ℤ → F
  pub to_int : F → ℤ
  -- `decimal m e` is the constant m / 10^e
  pub decimal : ℕ → ℕ → F

module _ {F : Type 0} ⦃fl : Float64 F⦄ where
  abbrev pub nought : F
  nought = fl.decimal 0 0

  -- Every float but NaN is `<=` itself.
  abbrev pub IsNumber : F → Type 0
  IsNumber x = fl.le x x ≡ true

-- The comparisons, away from NaN: `<` and `==` follow from `<=`, a total order.
pub record IsOrdered (F : Type 0) ⦃fl : Float64 F⦄ : Type 0 where
  pub le_trans : (x y z : F) → fl.le x y ≡ true → fl.le y z ≡ true → fl.le x z ≡ true
  pub le_total : (x y : F) → IsNumber x → IsNumber y → (fl.le x y ≡ true) ⊎ (fl.le y x ≡ true)
  pub lt-eq-not-le : (x y : F) → IsNumber x → IsNumber y → fl.lt x y ≡ not (fl.le y x)
  pub number_of_le : (x y : F) → fl.le x y ≡ true → IsNumber x × IsNumber y
  pub number_of_lt : (x y : F) → fl.lt x y ≡ true → IsNumber x × IsNumber y

-- The integers below 2^53 are exact, and so are their comparisons and products.
pub record IsExact (F : Type 0) ⦃fl : Float64 F⦄ : Type 0 where
  pub lt-of_int :
      (m n : ℕ) → m < 2 ^ 53 → n < 2 ^ 53 → fl.lt (fl.of_int (pos m)) (fl.of_int (pos n)) ≡ ltb m n
  pub mul-of_int :
      (m n : ℕ)
      → m * n < 2 ^ 53
      → fl.mul (fl.of_int (pos m)) (fl.of_int (pos n)) ≡ fl.of_int (pos (m * n))
  pub decimal-of_int : (m : ℕ) → m < 2 ^ 53 → fl.decimal m 0 ≡ fl.of_int (pos m)

-- Converting to int drops the fraction, for floats that are not negative and below 2^52.
pub record IsTruncating (F : Type 0) ⦃fl : Float64 F⦄ : Type 0 where
  pub to_int-floor :
      (x : F)
      → fl.le nought x ≡ true
      → fl.lt x (fl.decimal (2 ^ 52) 0) ≡ true
      → (n : ℕ) × (fl.to_int x ≡ pos n)
        × (fl.le (fl.of_int (pos n)) x ≡ true)
        × (fl.lt x (fl.of_int (pos (n + 1))) ≡ true)

-- The integers below 2^53 add and subtract exactly, and zero has the quotient zero.
pub record IsCounting (F : Type 0) ⦃fl : Float64 F⦄ : Type 0 where
  pub add-of_int :
      (m n : ℕ)
      → m + n < 2 ^ 53
      → fl.add (fl.of_int (pos m)) (fl.of_int (pos n)) ≡ fl.of_int (pos (m + n))
  pub sub-of_int :
      (m n : ℕ)
      → n ≤ m
      → m < 2 ^ 53
      → fl.sub (fl.of_int (pos m)) (fl.of_int (pos n)) ≡ fl.of_int (pos (m - n))
  pub div-zero :
      (n : ℕ)
      → 0 < n
      → n < 2 ^ 53
      → fl.div (fl.of_int (pos 0)) (fl.of_int (pos n)) ≡ fl.of_int (pos 0)
