-- ===== src/Trader/Gateway.antt =====
-- src/analysts/trader/agent.go: the handler of signal.execute.*. encoding/json is not modelled: the
-- handler is given the decoded execution, or `none` for a payload that is not one. An error of the
-- ack or the nak itself is only logged, so it is left out.
pub mod Delivery
use navier_stocks.Base.{Option, none, some, String}
use navier_stocks.Float.{Float64}
use navier_stocks.Models.{TradeExecution, validate_execution}
use navier_stocks.Trader.{Fill}

-- What becomes of the message.
pub data Answer : Type 0 where
  ack nak : Answer

module _ {F S : Type 0} where
  abbrev answer : Fill F × S → Answer × S
  answer (Fill.filled result, s) = (Answer.ack, s)
  answer (Fill.rejected error, s) = (Answer.nak, s)

  abbrev if_valid :
      Option String → (TradeExecution F → S → Fill F × S) → TradeExecution F → S → Answer × S
  if_valid (some message) trader exec s = (Answer.ack, s)
  if_valid none trader exec s = answer (trader exec s)

module _ {F S : Type 0} ⦃fl : Float64 F⦄ where
  -- `(*Analyst).handleExecution`
  unfoldable pub handle_execution :
      (TradeExecution F → S → Fill F × S) → Option (TradeExecution F) → S → Answer × S
  handle_execution trader none s = (Answer.ack, s)
  handle_execution trader (some exec) s = if_valid (validate_execution exec) trader exec s
