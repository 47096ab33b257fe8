-- ===== src/Trader/PaperTrader/Closings.antt =====
-- src/analysts/trader/papertrader.go: which executions `isClosing` takes for closings, and the
-- boundaries that `posFromExec` gives a position.
use navier_stocks.Base.{ℕ, ◌≡◌, refl, true, false, ◌||◌, some, String, arith}
use navier_stocks.Base.Text.{
  has_prefix, str_eq, str_eq_iff, decimal_text, other_prefix-reference, has_prefix-reference,
}
use navier_stocks.Float.{Float64}
use navier_stocks.Models.{
  TradeIntent, TradeExecution, Position, reason_stop_loss, reason_take_profit, reason_square_off,
}
use navier_stocks.Risk.Executor.{build_execution}
use navier_stocks.Risk.Executor.Orders.{risk_ref, build_execution-Mirrors}
use navier_stocks.Risk.SquareOff.{square_off_order}
use navier_stocks.Trader.PaperTrader.{is_closing}

-- The references of the risk manager are not those of the exit monitor or the square-off.
risk_ref_opens :
    (ticker : String) (nanos : ℕ)
    → (has_prefix (risk_ref ticker nanos) "exit-" ≡ false)
      × (has_prefix (risk_ref ticker nanos) "sqoff-" ≡ false)
risk_ref_opens ticker nanos = (
  other_prefix-reference "risk-" ticker (decimal_text nanos) "exit-" "" refl
      (λ e. ground (arith, (str_eq_iff "risk-" "exit-").1 e)),
  other_prefix-reference "risk-" ticker (decimal_text nanos) "sqoff" "-" refl
      (λ e. ground (arith, (str_eq_iff "risk-" "sqoff").1 e)),
)

-- A signal reason that is no exit reason.
abbrev pub IsEntryReason : String → Type 0
IsEntryReason reason =
    (str_eq reason reason_stop_loss
      || str_eq reason reason_take_profit
      || str_eq reason reason_square_off)
    ≡ false

module _ {F : Type 0} ⦃fl : Float64 F⦄ where
  -- An execution that the risk manager builds opens a position, unless its intent's signal reason is
  -- an exit reason.
  pub build_execution_opens :
      (capital : F) (sector : String) (nanos : ℕ) (intent : TradeIntent F) (exec : TradeExecution F)
      → IsEntryReason intent.signal_reason
      → build_execution capital sector nanos intent ≡ some exec
      → is_closing exec ≡ false
  unfolding is_closing
  build_execution_opens capital sector nanos intent exec r h =
      let m = build_execution-Mirrors capital sector nanos intent exec h in
      let (exit, sqoff) = risk_ref_opens intent.ticker nanos in
      rw (m.same_reason, m.own_ref, r, exit, sqoff) refl

  -- An order of the square-off is taken for a closing.
  pub square_off_order_closes :
      (p : Position F) (price : F) (now : ℕ) → is_closing (square_off_order p price now) ≡ true
  unfolding is_closing square_off_order
  square_off_order_closes p price now =
      rw (has_prefix-reference "sqoff-" p.execution_ref (decimal_text now)) (ground arith)
