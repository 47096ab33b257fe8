-- ===== src/Risk/Executor/Orders.antt =====
-- src/analysts/riskmanager/executor.go: the executions that an intent is turned into.
use navier_stocks.Base.{ℕ, ◌<◌, ◌≡◌, false, none, some, String, arith}
use navier_stocks.Base.Int.{pos_part}
use navier_stocks.Base.Text.{concat, size-concat, concat_nonempty, is_empty, decimal_text}
use navier_stocks.Float.{Float64}
use navier_stocks.Models.{TradeIntent, TradeExecution, validate_intent, validate_execution}
use navier_stocks.Models.Laws.{validate_intent_iff, validate_execution_iff}
use navier_stocks.Risk.Executor.{build_execution}

-- The text that every reference of the risk manager is.
abbrev pub risk_ref : String → ℕ → String
risk_ref ticker nanos = concat (concat (concat "risk-" ticker) "-") (decimal_text nanos)

risk_ref_nonempty : (ticker : String) (nanos : ℕ) → is_empty (risk_ref ticker nanos) ≡ false
risk_ref_nonempty ticker nanos =
    concat_nonempty _ (decimal_text nanos)
      (omega (arith, size-concat (concat "risk-" ticker) "-", size-concat "risk-" ticker))

module _ {F : Type 0} ⦃fl : Float64 F⦄ where
  -- What an execution keeps of its intent.
  pub record Mirrors (intent : TradeIntent F) (sector : String) (nanos : ℕ)
      (exec : TradeExecution F) : Type 0 where
    pub same_ticker : exec.ticker ≡ intent.ticker
    pub same_side : exec.side ≡ intent.side
    pub same_price : exec.price ≡ intent.current_price
    pub same_sector : exec.sector ≡ sector
    pub same_reason : exec.signal_reason ≡ intent.signal_reason
    pub own_ref : exec.execution_ref ≡ risk_ref intent.ticker nanos
    pub some_quantity : 0 < pos_part exec.quantity

  pub build_execution-Mirrors :
      (capital : F) (sector : String) (nanos : ℕ) (intent : TradeIntent F) (exec : TradeExecution F)
      → build_execution capital sector nanos intent ≡ some exec
      → Mirrors intent sector nanos exec
  unfolding build_execution
  build_execution-Mirrors capital sector nanos intent exec h = ground arith

  -- If an execution is built from a valid intent, it is valid, so the Trader Gateway does not drop it.
  pub build_execution_valid :
      (capital : F) (sector : String) (nanos : ℕ) (intent : TradeIntent F) (exec : TradeExecution F)
      → validate_intent intent ≡ none
      → build_execution capital sector nanos intent ≡ some exec
      → validate_execution exec ≡ none
  build_execution_valid capital sector nanos intent exec v h =
      let m = build_execution-Mirrors capital sector nanos intent exec h in
      let s = (validate_intent_iff intent).0 v in
      (validate_execution_iff exec).1 (record {
        named = rw (m.same_ticker) s.named;
        sided = rw (m.same_side) s.sided;
        sized = m.some_quantity;
        priced = rw (m.same_price) s.priced;
        referenced = rw (m.own_ref) (risk_ref_nonempty intent.ticker nanos);
      })
