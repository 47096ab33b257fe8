-- ===== src/Groww/Requests/Executions.antt =====
-- src/pkg/groww/order.go: the orders that the executions of the risk manager become.
use navier_stocks.Base.{ℕ, ◌^◌, ◌≤◌, ◌<◌, ◌≡◌, some, String, arith}
use navier_stocks.Base.Text.{concat, size, size-concat, decimal_text}
use navier_stocks.Base.Text.Digits.{size-decimal_text}
use navier_stocks.Float.{Float64}
use navier_stocks.Models.{TradeIntent, TradeExecution}
use navier_stocks.Risk.Executor.{build_execution}
use navier_stocks.Risk.Executor.Orders.{risk_ref, build_execution-Mirrors}
use navier_stocks.Groww.References.{max_len}
use navier_stocks.Groww.Requests.{place_order_request_from_trade_execution}

-- A time of day in nanoseconds since the epoch has 19 digits from 2001 on.
abbrev pub after_2001 : ℕ
after_2001 = 10 ^ 18

size-risk_ref :
    (ticker : String) (nanos : ℕ) → after_2001 ≤ nanos → 24 < size (risk_ref ticker nanos)
size-risk_ref ticker nanos h = omega (
  arith,
  size-concat (concat (concat "risk-" ticker) "-") (decimal_text nanos),
  size-concat (concat "risk-" ticker) "-",
  size-concat "risk-" ticker,
  size-decimal_text 18 nanos (omega arith) (omega arith),
)

module _ {F : Type 0} ⦃fl : Float64 F⦄ where
  -- The order for an execution that the risk manager builds after 2001 has a reference of more than
  -- the 20 bytes to which `ParseOrderReferenceID` cuts one.
  pub place_order_request_too_long :
      (capital : F) (sector : String) (nanos : ℕ) (intent : TradeIntent F) (exec : TradeExecution F)
      → after_2001 ≤ nanos
      → build_execution capital sector nanos intent ≡ some exec
      → max_len < size (place_order_request_from_trade_execution exec).order_reference_id
  unfolding place_order_request_from_trade_execution
  place_order_request_too_long capital sector nanos intent exec h built =
      let m = build_execution-Mirrors capital sector nanos intent exec built in
      rw m.own_ref (omega (arith, size-risk_ref intent.ticker nanos h))
