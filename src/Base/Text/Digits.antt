-- ===== src/Base/Text/Digits.antt =====
-- The size of a number that is written out.
use Prim.Native.Char.{Char, len_utf8}
use Prim.Native.String.len
use text.Mathlib.TextPositions.{len_utf8-pos}
use navier_stocks.Base.{
  ℕ, zero, suc, ◌+◌, ◌*◌, ◌/◌, ◌%◌, ◌≤◌, ◌<◌, ◌≡◌, inl, inr, false, String, arith, ltb, Bool-cases,
}
use navier_stocks.Base.Text.{size, digit, digits_onto, decimal_text}

abbrev pub pow10 : ℕ → ℕ
pow10 zero = 1
pow10 (suc k) = 10 * pow10 k

pow10_pos : (k : ℕ) → 0 < pow10 k
pow10_pos zero = omega arith
pow10_pos (suc k) = omega (arith, pow10_pos k)

size-cons : (c : Char) (s : String) → suc (size s) ≤ size (String.◌∷◌ c s)
size-cons c s =
    let (k, e) = len_utf8-pos c in
    let whole : size (String.◌∷◌ c s) ≡ len_utf8 c + size s = len.cons c s in
    omega (arith, e, whole)

size-digits_onto_le : (f n : ℕ) (rest : String) → size rest ≤ size (digits_onto f n rest)
unfolding digits_onto
size-digits_onto_le zero n rest = omega arith
size-digits_onto_le (suc f) n rest = elim (Bool-cases (ltb n 10)) [
  | inl small ↦ rw small (omega (arith, size-cons (digit n) rest))
  | inr large ↦ rw large (
      omega (
        arith,
        size-digits_onto_le f (n / 10) (String.◌∷◌ (digit (n % 10)) rest),
        size-cons (digit (n % 10)) rest,
      ))
]

-- A number with at least k + 1 digits is written with as many bytes, or more.
size-digits_onto :
    (f k n : ℕ) (rest : String)
    → k < f
    → pow10 k ≤ n
    → suc k + size rest ≤ size (digits_onto f n rest)
unfolding digits_onto
size-digits_onto zero k n rest h m = absurd (omega (arith, h))
size-digits_onto (suc f) zero n rest h m = elim (Bool-cases (ltb n 10)) [
  | inl small ↦ rw small (omega (arith, size-cons (digit n) rest))
  | inr large ↦ rw large (
      omega (
        arith,
        size-digits_onto_le f (n / 10) (String.◌∷◌ (digit (n % 10)) rest),
        size-cons (digit (n % 10)) rest,
      ))
]
size-digits_onto (suc f) (suc k) n rest h m =
    let large : ltb n 10 ≡ false = ground (arith, pow10_pos k) in
    rw large (
      omega (
        arith,
        size-digits_onto f k (n / 10) (String.◌∷◌ (digit (n % 10)) rest) (omega arith)
            (omega arith),
        size-cons (digit (n % 10)) rest,
      ))

pub size-decimal_text : (k n : ℕ) → k < 19 → pow10 k ≤ n → suc k ≤ size (decimal_text n)
unfolding decimal_text
size-decimal_text k n h m = omega (arith, size-digits_onto 19 k n "" h m)
