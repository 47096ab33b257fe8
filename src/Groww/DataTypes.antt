-- ===== src/Groww/DataTypes.antt =====
-- src/pkg/groww/types.go: the payloads of the margin, live-data and historical calls.
use navier_stocks.Base.{String, Option, List}
use navier_stocks.Base.Int.{ℤ}
use navier_stocks.Base.Dict.{Dict}
use navier_stocks.Groww.Types.{Exchange, OrderType, TransactionType}

-- `FNOMarginDetails`
pub record FnoMarginDetails (F : Type 0) : Type 0 where
  pub net_fno_margin_used : F
  pub span_margin_used : F
  pub exposure_margin_used : F
  pub future_balance_avail : F
  pub option_buy_balance_avail : F
  pub option_sell_balance_avail : F

-- `EquityMarginDetails`
pub record EquityMarginDetails (F : Type 0) : Type 0 where
  pub net_equity_margin_used : F
  pub mis_margin_used : F
  pub mis_balance_avail : F

-- `MarginResponse`
pub record MarginResponse (F : Type 0) : Type 0 where
  pub clear_cash : F
  pub net_margin_used : F
  pub brokerage_and_charges : F
  pub collateral_used : F
  pub collateral_available : F
  pub adhoc_margin : F
  pub fno_margin_details : Option (FnoMarginDetails F)
  pub equity_margin_details : Option (EquityMarginDetails F)

-- `MarginCalcRequest`
pub record MarginCalcRequest (F : Type 0) : Type 0 where
  pub trading_symbol : String
  pub transaction_type : TransactionType
  pub quantity : ℤ
  pub price : F
  pub order_type : OrderType
  pub exchange : Exchange

-- `MarginCalcResponse`
pub record MarginCalcResponse (F : Type 0) : Type 0 where
  pub exposure_required : F
  pub span_required : F
  pub option_buy_premium : F
  pub brokerage_and_charges : F
  pub total_requirement : F
  pub cash_mis_margin_required : F

-- `OHLC`
pub record Ohlc (F : Type 0) : Type 0 where
  pub open_price : F
  pub high : F
  pub low : F
  pub close_price : F

-- `DepthEntry`
pub record DepthEntry (F : Type 0) : Type 0 where
  pub price : F
  pub quantity : ℤ

-- `MarketDepth`
pub record MarketDepth (F : Type 0) : Type 0 where
  pub buy : List (DepthEntry F)
  pub sell : List (DepthEntry F)

-- `Quote`
pub record Quote (F : Type 0) : Type 0 where
  pub average_price : F
  pub bid_quantity : ℤ
  pub bid_price : F
  pub day_change : F
  pub day_change_perc : F
  pub upper_circuit_limit : F
  pub lower_circuit_limit : F
  pub ohlc : Ohlc F
  pub depth : Option (MarketDepth F)
  pub high_trade_range : F
  pub implied_volatility : F
  pub last_trade_quantity : ℤ
  pub last_trade_time : ℤ
  pub low_trade_range : F
  pub last_price : F
  pub market_cap : F
  pub offer_price : F
  pub offer_quantity : ℤ
  pub oi_day_change : F
  pub oi_day_change_perc : F
  pub open_interest : F
  pub prev_open_interest : F
  pub total_buy_quantity : F
  pub total_sell_quantity : F
  pub volume : ℤ
  pub week52_high : F
  pub week52_low : F

-- `HistoricalCandle`
pub record HistoricalCandle (F : Type 0) : Type 0 where
  pub timestamp : ℤ
  pub open_price : F
  pub high : F
  pub low : F
  pub close_price : F
  pub volume : ℤ

-- `LTPResponse`
abbrev pub LtpResponse : Type 0 → Type 0
LtpResponse F = Dict F

-- `OHLCResponse`
abbrev pub OhlcResponse : Type 0 → Type 0
OhlcResponse F = Dict (Ohlc F)
