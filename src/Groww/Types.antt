-- ===== src/Groww/Types.antt =====
-- src/pkg/groww/types.go: the constants and the payloads that the modelled calls use. The string
-- types of the constants are texts, since any text can stand in a message of the broker.
use navier_stocks.Base.{String}
use navier_stocks.Base.Int.{ℤ}

-- `Exchange`
abbrev pub Exchange : Type 0
Exchange = String

abbrev pub exchange_nse : Exchange
exchange_nse = "NSE"

-- `Segment`
abbrev pub Segment : Type 0
Segment = String

abbrev pub segment_cash : Segment
segment_cash = "CASH"

-- `OrderType`
abbrev pub OrderType : Type 0
OrderType = String

abbrev pub order_type_limit : OrderType
order_type_limit = "LIMIT"

-- `TransactionType`
abbrev pub TransactionType : Type 0
TransactionType = String

abbrev pub transaction_type_buy : TransactionType
transaction_type_buy = "BUY"

abbrev pub transaction_type_sell : TransactionType
transaction_type_sell = "SELL"

-- `APIStatusSuccess`
abbrev pub api_status_success : String
api_status_success = "SUCCESS"

-- `FeedInstrument`
pub record FeedInstrument : Type 0 where
  pub exchange : Exchange
  pub segment : Segment
  pub exchange_token : String

-- `LTPData`
pub record LtpData (F : Type 0) : Type 0 where
  pub ts_in_millis : ℤ
  pub ltp : F
