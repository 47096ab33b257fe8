-- ===== src/Risk/Gates/Balance.antt =====
-- src/analysts/riskmanager/bias.go: Gate 3 in whole numbers, and beside the ceilings of Gates 1 and 2.
use native.Mathlib.Nat.{mul-le-mul}
use navier_stocks.Base.{ℕ, ◌*◌, ◌^◌, ◌≤◌, ◌<◌, ◌≡◌, none, ◌⊎◌, ◌↔◌, String, arith, ltb}
use navier_stocks.Base.Int.{pos}
use navier_stocks.Float.{Float64, IsExact}
use navier_stocks.Models.{Side}
use navier_stocks.Risk.Exposure.{Exposure, entry_gate}
use navier_stocks.Risk.Exposure.Tracking.{Book, Tracks, entry_gate-Tracks, longs-add-shorts}
use navier_stocks.Risk.Gates.{candidate_longs, candidate_shorts, check_bias, bias_gate}

mul_small : (m n : ℕ) → m < 2 ^ 20 → n ≤ 2 ^ 20 → m * n < 2 ^ 53
mul_small m n h k = omega (arith, product)
  where
    product : m * n ≤ 1_048_576 * 1_048_576
    product = mul-le-mul {n₂ = 1_048_576} (omega arith) k

module _ {F : Type 0} ⦃fl : Float64 F⦄ (exact : IsExact F) where
  open exact use {lt-of_int, mul-of_int, decimal-of_int}

  -- One comparison, in whole numbers.
  over_ratio :
      (r m n : ℕ)
      → r < 2 ^ 53
      → r * n < 2 ^ 53
      → m < 2 ^ 53
      → fl.lt (fl.mul (fl.decimal r 0) (fl.of_int (pos n))) (fl.of_int (pos m)) ≡ ltb (r * n) m
  over_ratio r m n h k l = rw (decimal-of_int r h, mul-of_int r n k) (lt-of_int (r * n) m k l)

  -- With a whole ratio `r`, and numbers below 2^20, Gate 3 refuses an entry just when both sides would be open and one of them
  -- would hold more than `r` times the other's positions.
  pub check_bias_iff :
      (longs shorts : ℕ) (side : Side) (r : ℕ)
      → r < 2 ^ 20
      → longs < 2 ^ 20
      → shorts < 2 ^ 20
      → let l = candidate_longs longs side in
        let s = candidate_shorts shorts side in
        (check_bias longs shorts side (fl.decimal r 0) ≡ none)
        ↔ ((l ≡ 0) ⊎ (s ≡ 0) ⊎ ((l ≤ r * s) × (s ≤ r * l)))
  unfolding check_bias
  check_bias_iff longs shorts side r h k l = (
    λ p. ground (
      arith,
      over_ratio r (candidate_longs longs side) (candidate_shorts shorts side),
      over_ratio r (candidate_shorts shorts side) (candidate_longs longs side),
      mul_small r (candidate_longs longs side),
      mul_small r (candidate_shorts shorts side),
    ),
    λ p. ground (
      arith,
      over_ratio r (candidate_longs longs side) (candidate_shorts shorts side),
      over_ratio r (candidate_shorts shorts side) (candidate_longs longs side),
      mul_small r (candidate_longs longs side),
      mul_small r (candidate_shorts shorts side),
    ),
  )

  -- With the ceilings of the agent, four positions in all and a ratio of 3, Gate 3 refuses no entry
  -- that Gates 1 and 2 let through: the tracker can then hold three positions at most.
  pub bias_gate_redundant :
      (e : Exposure F) (b : Book) (side : Side) (sector : String)
      → Tracks e b
      → 0 < e.max_sector
      → e.max_total ≡ 4
      → e.max_bias ≡ fl.decimal 3 0
      → entry_gate e sector ≡ none
      → bias_gate e side ≡ none
  unfolding bias_gate
  bias_gate_redundant e b side sector t h k m g = rw m (
      ground (
        arith,
        t.longs,
        t.shorts,
        t.total,
        longs-add-shorts b,
        entry_gate-Tracks e b sector t h,
        check_bias_iff e.longs e.shorts side 3,
      ))
