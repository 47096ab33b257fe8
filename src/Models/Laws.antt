-- ===== src/Models/Laws.antt =====
-- src/pkg/models: what the `Validate` methods accept, and the rows that they refuse.
use navier_stocks.Base.{◌≡◌, ◌↔◌, true, false, none, ◌||◌, ◌<◌, arith}
use navier_stocks.Base.Int.{pos_part}
use navier_stocks.Base.Text.{is_empty}
use navier_stocks.Float.{Float64, nought}
use navier_stocks.Models.{
  TradeIntent, TradeExecution, Position, SentimentScore, is_long, is_short, is_open, is_closed,
  is_known_bias, validate_intent, validate_execution, validate_position, validate_score,
}

module _ {F : Type 0} ⦃fl : Float64 F⦄ where
  pub record IsSignal (t : TradeIntent F) : Type 0 where
    pub named : is_empty t.ticker ≡ false
    pub sided : (is_long t.side || is_short t.side) ≡ true
    pub priced : fl.le t.current_price nought ≡ false
    pub reasoned : is_empty t.signal_reason ≡ false

  -- The intents that `Validate` lets through are exactly those with every required field.
  pub validate_intent_iff : (t : TradeIntent F) → (validate_intent t ≡ none) ↔ IsSignal t
  unfolding validate_intent
  validate_intent_iff t = (λ h. ground arith, λ h. ground arith)

  -- What a valid execution holds, field by field.
  pub record IsTradable (t : TradeExecution F) : Type 0 where
    pub named : is_empty t.ticker ≡ false
    pub sided : (is_long t.side || is_short t.side) ≡ true
    pub sized : 0 < pos_part t.quantity
    pub priced : fl.le t.price nought ≡ false
    pub referenced : is_empty t.execution_ref ≡ false

  -- So with executions.
  pub validate_execution_iff : (t : TradeExecution F) → (validate_execution t ≡ none) ↔ IsTradable t
  unfolding validate_execution
  validate_execution_iff t = (λ h. ground arith, λ h. ground arith)

  pub record IsStorable (p : Position F) : Type 0 where
    pub named : is_empty p.ticker ≡ false
    pub sided : (is_long p.side || is_short p.side) ≡ true
    pub sized : 0 < pos_part p.quantity
    pub priced : fl.le p.entry_price nought ≡ false
    pub stopped : fl.le p.stop_loss nought ≡ false
    pub targeted : fl.le p.take_profit nought ≡ false
    pub sectored : is_empty p.sector ≡ false
    pub referenced : is_empty p.execution_ref ≡ false
    pub known_status : (is_open p.status || is_closed p.status) ≡ true

  -- `Position.Validate` accepts exactly the positions with a ticker, a side, a positive quantity, price,
  -- stop and target, a sector, a reference and a known status.
  pub validate_position_iff : (p : Position F) → (validate_position p ≡ none) ↔ IsStorable p
  unfolding validate_position
  validate_position_iff p = (λ h. ground arith, λ h. ground arith)

  pub record IsPersistable (s : SentimentScore F) : Type 0 where
    pub named : is_empty s.ticker ≡ false
    pub biased : is_known_bias s.bias ≡ true
    pub not_below : fl.lt s.confidence nought ≡ false
    pub not_above : fl.lt (fl.decimal 1 0) s.confidence ≡ false
    pub cited : is_empty s.source_url ≡ false

  -- So with sentiment scores.
  pub validate_score_iff : (s : SentimentScore F) → (validate_score s ≡ none) ↔ IsPersistable s
  unfolding validate_score
  validate_score_iff s = (λ h. ground arith, λ h. ground arith)
