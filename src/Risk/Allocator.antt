-- ===== src/Risk/Allocator.antt =====
-- src/analysts/riskmanager/allocator.go: the fixed-fractional sizing of a position. The environment
-- variable is an argument, as what `strconv.ParseFloat` makes of it.
pub mod Sizing
use navier_stocks.Base.{ℕ, Bool, true, false, ◌||◌, Option, none, some, String, if◌then◌else◌}
use navier_stocks.Base.Int.{ℤ, pos}
use navier_stocks.Base.Text.{is_empty}
use navier_stocks.Float.{Float64, nought}
use navier_stocks.Models.{Side, TradeIntent, is_short}

module _ {F : Type 0} ⦃fl : Float64 F⦄ where
  -- 2% of the capital, and a stop 5% away.
  abbrev pub default_risk_percent : F
  default_risk_percent = fl.decimal 2 2

  abbrev pub default_total_capital : F
  default_total_capital = fl.decimal 1_000_000 0

  -- `CalculateQuantityPct`
  unfoldable pub calculate_quantity_pct : F → F → F → F → ℤ
  calculate_quantity_pct total_capital entry_price stop_loss risk_percent =
      if fl.le total_capital nought || (fl.le entry_price nought || fl.le stop_loss nought)
      then pos 0
      else if fl.le risk_per_share nought
      then pos 0
      else fl.to_int (fl.div (fl.mul total_capital risk_percent) risk_per_share)
    where
      risk_per_share : F
      risk_per_share = fl.abs (fl.sub entry_price stop_loss)

  -- `CalculateQuantity`
  unfoldable pub calculate_quantity : F → F → F → ℤ
  calculate_quantity total_capital entry_price stop_loss =
      calculate_quantity_pct total_capital entry_price stop_loss default_risk_percent

  -- `parseFloat`: -1 where the text is no float.
  abbrev parse_float : (String → Option F) → String → F
  parse_float parse raw = elim (parse raw) [ none ↦ fl.sub nought (fl.decimal 1 0) | some v ↦ v ]

  -- `LoadTotalCapital`
  unfoldable pub load_total_capital : (String → Option F) → String → F
  load_total_capital parse raw =
      if is_empty raw
      then default_total_capital
      else if fl.lt nought (parse_float parse raw)
      then parse_float parse raw
      else default_total_capital

  -- `(*Analyst).stopLossFor`; Go folds the constants 1 + 0.05 and 1 - 0.05 exactly.
  unfoldable pub stop_loss_for : TradeIntent F → F
  stop_loss_for intent =
      if is_short intent.side
      then fl.mul intent.current_price (fl.decimal 105 2)
      else fl.mul intent.current_price (fl.decimal 95 2)
