-- ===== src/Risk/Executor.antt =====
-- src/analysts/riskmanager/executor.go: an approved intent becomes an execution that is published on
-- signal.execute.<TICKER>. JSON encoding and JetStream are what a link answers to a publish.
pub mod Orders
use navier_stocks.Base.{
  ℕ, Bool, true, false, Option, none, some, String, List, [], ◌∷◌, ◌++◌, if◌then◌else◌,
}
use navier_stocks.Base.Int.{ℤ, pos, leb_ℤ}
use navier_stocks.Base.Text.{concat, decimal_text}
use navier_stocks.Float.{Float64, nought}
use navier_stocks.Models.{Side, TradeIntent, TradeExecution, is_short}
use navier_stocks.Risk.{Refusal}
use navier_stocks.Risk.Allocator.{calculate_quantity, stop_loss_for}

-- What the link to JetStream answers for a subject and an execution: the text of the error of
-- json.Marshal or of `Publish`, or `none`.
abbrev pub Link : Type 0 → Type 0
Link F = String → TradeExecution F → Option String

-- A message that has left an agent: its subject and its payload.
abbrev pub Sent : Type 0 → Type 0
Sent F = String × TradeExecution F

-- `ExecuteSubject`
abbrev pub execute_subject : String → String
execute_subject ticker = concat "signal.execute." ticker

module _ {F : Type 0} ⦃fl : Float64 F⦄ where
  -- `calculateTakeProfit`, with the ratio 2.0
  unfoldable pub calculate_take_profit : Side → F → F → F
  calculate_take_profit side entry stop_loss =
      if fl.le risk nought
      then nought
      else if is_short side
      then fl.sub entry (fl.mul (fl.decimal 2 0) risk)
      else fl.add entry (fl.mul (fl.decimal 2 0) risk)
    where
      risk : F
      risk = if is_short side then fl.sub stop_loss entry else fl.sub entry stop_loss

  -- `(*Analyst).buildExecution`. The capital and the sector of the ticker come from the agent, and
  -- `nanos` is `time.Now().UnixNano()`; `none` is ErrInsufficientCapital.
  unfoldable pub build_execution : F → String → ℕ → TradeIntent F → Option (TradeExecution F)
  build_execution capital sector nanos intent =
      if leb_ℤ quantity (pos 0)
      then none
      else some (record {
        ticker = intent.ticker;
        side = intent.side;
        quantity = quantity;
        price = intent.current_price;
        stop_loss = stop_loss;
        take_profit = calculate_take_profit intent.side intent.current_price stop_loss;
        sector = sector;
        signal_reason = intent.signal_reason;
        execution_ref = concat (concat (concat "risk-" intent.ticker) "-") (decimal_text nanos);
        position_id = 0;
      })
    where
      stop_loss : F
      stop_loss = stop_loss_for intent

      quantity : ℤ
      quantity = calculate_quantity capital intent.current_price stop_loss

  -- `(*Analyst).publishExecution`, with what has been sent so far. With no link nothing is sent, and
  -- that is no error.
  unfoldable pub publish_execution :
      Option (Link F) → List (Sent F) → TradeExecution F → Option Refusal × List (Sent F)
  publish_execution none sent exec = (none, sent)
  publish_execution (some link) sent exec = elim (link (execute_subject exec.ticker) exec) [
    | some message ↦ (some (Refusal.publish_failed message), sent)
    | none ↦ (none, (execute_subject exec.ticker, exec) ∷ sent)
  ]
