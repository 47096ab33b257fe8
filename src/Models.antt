-- ===== src/Models.antt =====
-- src/pkg/models: the payloads and rows that the agents share, with their `Validate` methods.
-- A Go string type with named constants is a data type with a constructor for each constant and
-- `other` for any other text. An error is the message that `errors.New` holds.
pub mod Laws
use navier_stocks.Base.{
  ℕ, String, ◌≡◌, Bool, true, false, not, ◌&&◌, ◌||◌, Option, none, some, ltb, if◌then◌else◌,
}
use navier_stocks.Base.Int.{ℤ, pos, leb_ℤ}
use navier_stocks.Base.Text.{is_empty}
use navier_stocks.Float.{Float64, nought}

-- `Side`
pub data Side : Type 0 where
  long short : Side
  other_side : String → Side

abbrev pub is_long : Side → Bool
is_long Side.long = true
is_long Side.short = false
is_long (Side.other_side s) = false

abbrev pub is_short : Side → Bool
is_short Side.long = false
is_short Side.short = true
is_short (Side.other_side s) = false

-- `PositionStatus`
pub data PositionStatus : Type 0 where
  opened closed : PositionStatus
  other_status : String → PositionStatus

abbrev pub is_open : PositionStatus → Bool
is_open PositionStatus.opened = true
is_open PositionStatus.closed = false
is_open (PositionStatus.other_status s) = false

abbrev pub is_closed : PositionStatus → Bool
is_closed PositionStatus.opened = false
is_closed PositionStatus.closed = true
is_closed (PositionStatus.other_status s) = false

-- `ExitReason`: a text, since `isClosing` converts any signal reason to it.
abbrev pub ExitReason : Type 0
ExitReason = String

abbrev pub reason_stop_loss : ExitReason
reason_stop_loss = "stop_loss"

abbrev pub reason_take_profit : ExitReason
reason_take_profit = "take_profit"

abbrev pub reason_square_off : ExitReason
reason_square_off = "square_off"

-- `SentimentBias`
pub data SentimentBias : Type 0 where
  bullish bearish neutral : SentimentBias
  other_bias : String → SentimentBias

abbrev pub is_known_bias : SentimentBias → Bool
is_known_bias (SentimentBias.other_bias s) = false
is_known_bias SentimentBias.bullish = true
is_known_bias SentimentBias.bearish = true
is_known_bias SentimentBias.neutral = true

-- Times are nanoseconds since the Unix epoch, in UTC.
pub record TradeIntent (F : Type 0) : Type 0 where
  pub ticker : String
  pub side : Side
  pub current_price : F
  pub vwap : F
  pub volume_ratio : F
  pub signal_reason : String
  pub timestamp : ℕ

pub record TradeExecution (F : Type 0) : Type 0 where
  pub ticker : String
  pub side : Side
  pub quantity : ℤ
  pub price : F
  pub stop_loss : F
  pub take_profit : F
  pub sector : String
  pub signal_reason : String
  pub execution_ref : String
  pub position_id : ℕ

-- `ClosedAt` is `none` while it is the zero time.
pub record Position (F : Type 0) : Type 0 where
  pub id : ℕ
  pub ticker : String
  pub side : Side
  pub quantity : ℤ
  pub entry_price : F
  pub stop_loss : F
  pub take_profit : F
  pub sector : String
  pub status : PositionStatus
  pub execution_ref : String
  pub exit_price : F
  pub pnl : F
  pub exit_reason : ExitReason
  pub closed_at : Option ℕ

pub record SentimentScore (F : Type 0) : Type 0 where
  pub id : ℕ
  pub ticker : String
  pub bias : SentimentBias
  pub confidence : F
  pub summary : String
  pub source : String
  pub source_url : String
  pub raw_response : String
  pub recorded_at : ℕ

-- `PublishedAt` is `none` for the zero time.
pub record Article : Type 0 where
  pub ticker : String
  pub title : String
  pub url : String
  pub source : String
  pub description : String
  pub published_at : Option ℕ

pub record PriceTick (F : Type 0) : Type 0 where
  pub ticker : String
  pub price : F
  pub ts_in_millis : ℤ

-- The first error of a chain of checks, or `none`.
abbrev pub require : Bool → String → Option String → Option String
require ok message rest = if ok then rest else some message

module _ {F : Type 0} ⦃fl : Float64 F⦄ where
  -- `(*TradeIntent).Validate`
  unfoldable pub validate_intent : TradeIntent F → Option String
  validate_intent t = require (not (is_empty t.ticker)) "ticker is required" (
      require (is_long t.side || is_short t.side) "side must be LONG or SHORT" (
        require (not (fl.le t.current_price nought)) "current_price must be positive"
          (require (not (is_empty t.signal_reason)) "signal_reason is required" none)))

  -- `(*TradeExecution).Validate`
  unfoldable pub validate_execution : TradeExecution F → Option String
  validate_execution t = require (not (is_empty t.ticker)) "ticker is required" (
      require (is_long t.side || is_short t.side) "side must be LONG or SHORT" (
        require (not (leb_ℤ t.quantity (pos 0))) "quantity must be positive" (
          require (not (fl.le t.price nought)) "price must be positive"
            (require (not (is_empty t.execution_ref)) "execution_ref is required" none))))

  -- `(*Position).Validate`
  unfoldable pub validate_position : Position F → Option String
  validate_position p = require (not (is_empty p.ticker)) "ticker is required" (
      require (is_long p.side || is_short p.side) "side must be LONG or SHORT" (
        require (not (leb_ℤ p.quantity (pos 0))) "quantity must be positive" (
          require (not (fl.le p.entry_price nought)) "entry_price must be positive" (
            require (not (fl.le p.stop_loss nought)) "stop_loss must be positive" (
              require (not (fl.le p.take_profit nought)) "take_profit must be positive" (
                require (not (is_empty p.sector)) "sector is required" (
                  require (not (is_empty p.execution_ref)) "execution_ref is required" (
                    require (is_open p.status || is_closed p.status) "status must be OPEN or CLOSED"
                      none))))))))

  -- `(*SentimentScore).Validate`
  unfoldable pub validate_score : SentimentScore F → Option String
  validate_score s = require (not (is_empty s.ticker)) "ticker is required" (
      require (is_known_bias s.bias) "bias must be BULLISH, BEARISH or NEUTRAL" (
        require (not (fl.lt s.confidence nought || fl.lt (fl.decimal 1 0) s.confidence))
          "confidence must be within [0,1]"
          (require (not (is_empty s.source_url)) "source_url is required" none)))
