-- ===== src/Risk/Allocator/Sizing.antt =====
-- src/analysts/riskmanager/allocator.go: what the size of a position is.
use navier_stocks.Base.{ℕ, ◌+◌, ◌^◌, ◌≡◌, ◌⊎◌, inl, inr, true, false, ◌||◌, arith, Bool-cases}
use navier_stocks.Base.Int.{pos}
use navier_stocks.Float.{Float64, IsTruncating, nought}
use navier_stocks.Risk.Allocator.{calculate_quantity_pct}

module _ {F : Type 0} ⦃fl : Float64 F⦄ where
  abbrev pub risk_per_share : F → F → F
  risk_per_share entry stop = fl.abs (fl.sub entry stop)

  -- What the budget buys: the quotient of the risk budget and the risk of one share.
  abbrev pub shares_in_budget : F → F → F → F → F
  shares_in_budget capital entry stop pct = fl.div (fl.mul capital pct) (risk_per_share entry stop)

  pub record CanSize (capital entry stop : F) : Type 0 where
    pub funded : fl.le capital nought ≡ false
    pub priced : fl.le entry nought ≡ false
    pub stopped : fl.le stop nought ≡ false
    pub apart : fl.le (risk_per_share entry stop) nought ≡ false

  -- If the quotient of budget and risk is from 0 to 2^52: without capital, an entry, a stop and a distance between them no share is bought. With them, the
  -- size is the largest whole number of shares that the budget covers.
  pub calculate_quantity_pct_floor :
      IsTruncating F
      → (capital entry stop pct : F) → fl.le nought (shares_in_budget capital entry stop pct) ≡ true
      → fl.lt (shares_in_budget capital entry stop pct) (fl.decimal (2 ^ 52) 0) ≡ true
      → (CanSize capital entry stop
          × ((n : ℕ) × (calculate_quantity_pct capital entry stop pct ≡ pos n)
              × (fl.le (fl.of_int (pos n)) (shares_in_budget capital entry stop pct) ≡ true)
              × (fl.lt (shares_in_budget capital entry stop pct) (fl.of_int (pos (n + 1))) ≡ true)))
        ⊎ ((CanSize capital entry stop → ⊥)
            × (calculate_quantity_pct capital entry stop pct ≡ pos 0))
  unfolding calculate_quantity_pct
  calculate_quantity_pct_floor laws capital entry stop pct h k =
      elim (Bool-cases (fl.le capital nought || (fl.le entry nought || fl.le stop nought))) [
        | inl bad ↦ inr (λ c. absurd (cannot c bad), rw bad)
        | inr good ↦ elim (Bool-cases (fl.le (risk_per_share entry stop) nought)) [
          | inl flat ↦ inr (λ c. absurd (flat_stop c flat), rw (good, flat))
          | inr apart ↦
              let (n, e, lower, upper) = laws.to_int-floor _ h k in
              inl (can good apart, (n, rw (good, apart) e, lower, upper))
        ]
      ]
    where
      cannot :
          CanSize capital entry stop
          → (fl.le capital nought || (fl.le entry nought || fl.le stop nought)) ≡ true
          → ⊥
      cannot c bad = ground (arith, c.funded, c.priced, c.stopped, bad)

      flat_stop : CanSize capital entry stop → fl.le (risk_per_share entry stop) nought ≡ true → ⊥
      flat_stop c flat = ground (arith, c.apart, flat)

      can :
          (fl.le capital nought || (fl.le entry nought || fl.le stop nought)) ≡ false
          → fl.le (risk_per_share entry stop) nought ≡ false
          → CanSize capital entry stop
      can good apart = ground arith
