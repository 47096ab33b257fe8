-- ===== src/Trader/PaperTrader.antt =====
-- src/analysts/trader/papertrader.go: the simulated broker. Its two stores are the tables of
-- Database.Positions and Database.TradeLog; `Faults` says which of its calls to them the driver
-- fails.
pub mod Opening
pub mod Ledgers
pub mod Closings
use navier_stocks.Base.{ℕ, Bool, true, false, ◌||◌, Option, none, some, String, if◌then◌else◌}
use navier_stocks.Base.Int.{ℤ, pos}
use navier_stocks.Base.Text.{str_eq, is_empty, has_prefix, concat, decimal_text}
use navier_stocks.Float.{Float64, nought}
use navier_stocks.Models.{
  TradeExecution, Position, PositionStatus, reason_stop_loss, reason_take_profit, reason_square_off,
  validate_position,
}
use navier_stocks.Database.{Stored, StoreError, done, refused}
use navier_stocks.Database.Positions.{Table, has_ref}
use navier_stocks.Database.Positions
use navier_stocks.Database.TradeLog.{Log}
use navier_stocks.Database.TradeLog
use navier_stocks.Trader.{OrderResult, ExecuteError, Fill}

pub record Ledger (F : Type 0) : Type 0 where
  pub table : Table F
  pub log : Log F

-- The driver's errors: of the query of `hasExecution`, and of the two inserts.
pub record Faults : Type 0 where
  pub on_query : Option String
  pub on_position : Option String
  pub on_log : Option String

-- `StatusSimulated`
abbrev pub status_simulated : String
status_simulated = "SIMULATED"

module _ {F : Type 0} where
  -- `isClosing`
  unfoldable pub is_closing : TradeExecution F → Bool
  is_closing order =
      if str_eq order.signal_reason reason_stop_loss
        || str_eq order.signal_reason reason_take_profit
        || str_eq order.signal_reason reason_square_off
      then true
      else has_prefix order.execution_ref "exit-" || has_prefix order.execution_ref "sqoff-"

  -- `(*PaperTrader).hasExecution`
  unfoldable pub has_execution : Option String → String → Table F → Bool
  has_execution (some error) ref t = false
  has_execution none ref t = has_ref ref t.rows

  -- The result of a fill at the requested price, under an id that ends as given.
  abbrev pub fill_at : TradeExecution F → String → Fill F
  fill_at order suffix = Fill.filled (record {
    broker_order_id = concat (concat (concat "PAPER-" order.execution_ref) "-") suffix;
    executed_price = order.price;
    executed_qty = order.quantity;
  })

  -- What the answer of the log makes of a fill.
  abbrev after_log : ℕ → TradeExecution F → Ledger F → Stored (Log F) → Fill F × Ledger F
  after_log millis order l (refused error) = (Fill.rejected (ExecuteError.log_failed error), l)
  after_log millis order l (done log) =
      (fill_at order (decimal_text millis), record l { log = log })

  -- The log, and the fill at the given Unix millisecond.
  abbrev log_fill : Option String → ℕ → TradeExecution F → Ledger F → Fill F × Ledger F
  log_fill fault millis order l =
      after_log millis order l (TradeLog.insert fault order status_simulated l.log)

module _ {F : Type 0} ⦃fl : Float64 F⦄ where
  -- `posFromExec`
  unfoldable pub pos_from_exec : TradeExecution F → Position F
  pos_from_exec order = record {
    id = 0;
    ticker = order.ticker;
    side = order.side;
    quantity = order.quantity;
    entry_price = order.price;
    stop_loss =
        if fl.eq order.stop_loss nought
        then fl.mul order.price (fl.decimal 95 2)
        else order.stop_loss;
    take_profit =
        if fl.eq order.take_profit nought
        then fl.mul order.price (fl.decimal 105 2)
        else order.take_profit;
    sector = if is_empty order.sector then "GENERAL" else order.sector;
    status = PositionStatus.opened;
    execution_ref = order.execution_ref;
    exit_price = nought;
    pnl = nought;
    exit_reason = "";
    closed_at = none;
  }

  -- The rest of `Execute` once the position was inserted: the order is linked to its row and logged.
  abbrev after_insert :
      Option String → ℕ → TradeExecution F → Ledger F → Stored (Table F × ℕ) → Fill F × Ledger F
  after_insert fault millis order l (refused error) =
      (Fill.rejected (ExecuteError.position_failed error), l)
  after_insert fault millis order l (done (t, id)) =
      log_fill fault millis (record order { position_id = id }) (record l { table = t })

  -- The part of `Execute` that opens a position, from its validation on.
  abbrev open_position :
      Faults → ℕ → TradeExecution F → Ledger F → Option String → Fill F × Ledger F
  open_position faults millis order l (some message) =
      (Fill.rejected (ExecuteError.invalid message), l)
  open_position faults millis order l none =
      after_insert faults.on_log millis order l
        (Positions.insert faults.on_position (pos_from_exec order) l.table)

  -- `(*PaperTrader).Execute`, at the given Unix millisecond.
  unfoldable pub execute : Faults → ℕ → TradeExecution F → Ledger F → Fill F × Ledger F
  execute faults millis order l =
      if is_closing order
      then log_fill faults.on_log millis order l
      else if has_execution faults.on_query order.execution_ref l.table
      then (fill_at order "dup", l)
      else open_position faults millis order l (validate_position (pos_from_exec order))
