-- ===== src/Groww/Requests.antt =====
-- src/pkg/groww: what each call of the client asks for. The escaping of a URL and the layout of a
-- time are the standard library's, so an argument is given escaped where the source escapes it.
pub mod Executions
use navier_stocks.Base.{ℕ, Option, none, some, List, [], ◌∷◌, String, map, if◌then◌else◌}
use navier_stocks.Base.Int.{ℤ, pos, negsuc, pos_part, neg_part}
use navier_stocks.Base.Text.{concat, decimal_text}
use navier_stocks.Float.{Float64, nought}
use navier_stocks.Models.{TradeExecution, is_short}
use navier_stocks.Groww.Types.{
  Exchange, Segment, OrderType, TransactionType, exchange_nse, segment_cash, order_type_limit,
  transaction_type_buy, transaction_type_sell,
}
use navier_stocks.Groww.OrderTypes.{PlaceOrderRequest, ModifyOrderRequest, CancelOrderRequest}
use navier_stocks.Groww.DataTypes.{MarginCalcRequest}

-- The rate bucket of a call.
pub data Bucket : Type 0 where
  orders live_data non_trading : Bucket

-- A value of a JSON object that the client builds by hand.
pub data Field (F : Type 0) : Type 0 where
  text : String → Field F
  whole : ℤ → Field F
  real : F → Field F

-- `marginCalcBody`
pub record MarginCalcBody (F : Type 0) : Type 0 where
  pub trading_symbol : String
  pub transaction_type : TransactionType
  pub quantity : ℤ
  pub price : F
  pub order_type : OrderType
  pub product : String
  pub exchange : Exchange

pub data Body (F : Type 0) : Type 0 where
  no_body : Body F
  object : List (String × Field F) → Body F
  modification : ModifyOrderRequest F → Body F
  cancellation : CancelOrderRequest → Body F
  margins : List (MarginCalcBody F) → Body F

-- The arguments of `do`.
pub record Request (F : Type 0) : Type 0 where
  pub method : String
  pub path : String
  pub body : Body F
  pub bucket : Bucket

-- The `%d` of an int.
abbrev pub int_text : ℤ → String
int_text (pos n) = decimal_text n
int_text (negsuc n) = concat "-" (decimal_text (neg_part (negsuc n)))

abbrev pub concat_all : List String → String
concat_all [] = ""
concat_all (s ∷ ss) = concat s (concat_all ss)

module _ {F : Type 0} where
  abbrev post : String → Body F → Bucket → Request F
  post path body bucket = record { method = "POST"; path = path; body = body; bucket = bucket }

  abbrev get : String → Bucket → Request F
  get path bucket = record { method = "GET"; path = path; body = no_body; bucket = bucket }

  -- `(*Client).PlaceOrder`
  unfoldable pub place_order : PlaceOrderRequest F → Request F
  place_order req =
      post "/order/create"
        (object (
          ("trading_symbol", text req.trading_symbol)
          ∷ ("quantity", whole req.quantity)
          ∷ ("price", real req.price)
          ∷ ("trigger_price", real req.trigger_price)
          ∷ ("validity", text "DAY")
          ∷ ("exchange", text req.exchange)
          ∷ ("segment", text req.segment)
          ∷ ("product", text "MIS")
          ∷ ("order_type", text req.order_type)
          ∷ ("transaction_type", text req.transaction_type)
          ∷ ("order_reference_id", text req.order_reference_id)
          ∷ []))
        orders

  -- `(*Client).ModifyOrder`
  unfoldable pub modify_order : ModifyOrderRequest F → Request F
  modify_order req = post "/order/modify" (modification req) orders

  -- `(*Client).CancelOrder`
  unfoldable pub cancel_order : Segment → String → Request F
  cancel_order seg id =
      post "/order/cancel" (cancellation (record { segment = seg; groww_order_id = id })) orders

  -- `(*Client).GetOrderStatus`
  unfoldable pub get_order_status : Segment → String → Request F
  get_order_status seg id =
      get (concat_all ("/order/status/" ∷ id ∷ "?segment=" ∷ seg ∷ [])) non_trading

  -- `(*Client).GetOrderStatusByRef`
  unfoldable pub get_order_status_by_ref : Segment → String → Request F
  get_order_status_by_ref seg ref =
      get (concat_all ("/order/status/reference/" ∷ ref ∷ "?segment=" ∷ seg ∷ [])) non_trading

  -- `(*Client).GetOrderList`
  unfoldable pub get_order_list : Segment → ℤ → ℤ → Request F
  get_order_list seg page size =
      get
        (concat_all (
          "/order/list?segment="
          ∷ seg
          ∷ "&page="
          ∷ int_text page
          ∷ "&page_size="
          ∷ int_text size
          ∷ []))
        non_trading

  -- `(*Client).GetOrderDetail`
  unfoldable pub get_order_detail : Segment → String → Request F
  get_order_detail seg id =
      get (concat_all ("/order/detail/" ∷ id ∷ "?segment=" ∷ seg ∷ [])) non_trading

  -- `(*Client).GetOrderTrades`
  unfoldable pub get_order_trades : Segment → String → ℤ → ℤ → Request F
  get_order_trades seg id page size =
      get
        (concat_all (
          "/order/trades/"
          ∷ id
          ∷ "?segment="
          ∷ seg
          ∷ "&page="
          ∷ int_text page
          ∷ "&page_size="
          ∷ int_text size
          ∷ []))
        non_trading

  -- `(*Client).GetUserMargin`
  unfoldable pub get_user_margin : Request F
  get_user_margin = get "/margins/detail/user" non_trading

  -- `(*Client).CalculateMargin`
  unfoldable pub calculate_margin : List (MarginCalcRequest F) → Request F
  calculate_margin requests =
      post "/margins/detail/orders"
        (margins (
          map
            (λ (o : MarginCalcRequest F). record {
              trading_symbol = o.trading_symbol;
              transaction_type = o.transaction_type;
              quantity = o.quantity;
              price = o.price;
              order_type = o.order_type;
              product = "MIS";
              exchange = o.exchange;
            })
            requests))
        non_trading

  -- `(*Client).GetQuote`
  unfoldable pub get_quote : Exchange → Segment → String → Request F
  get_quote exchange seg symbol =
      get
        (concat_all (
          "/live-data/quote?exchange=" ∷ exchange ∷ "&segment=" ∷ seg ∷ "&trading_symbol=" ∷ symbol
          ∷ []))
        live_data

  -- `(*Client).GetLTP`, with the joined symbols
  unfoldable pub get_ltp : Segment → String → Request F
  get_ltp seg symbols =
      get (concat_all ("/live-data/ltp?segment=" ∷ seg ∷ "&exchange_symbols=" ∷ symbols ∷ []))
        live_data

  -- `(*Client).GetOHLC`, with the joined symbols
  unfoldable pub get_ohlc : Segment → String → Request F
  get_ohlc seg symbols =
      get (concat_all ("/live-data/ohlc?segment=" ∷ seg ∷ "&exchange_symbols=" ∷ symbols ∷ []))
        live_data

  -- The request of `GetHistoricalCandles`
  unfoldable pub get_historical_candles :
      Exchange → Segment → String → String → String → String → Request F
  get_historical_candles exchange seg symbol start end interval =
      get
        (concat_all (
          "/historical/candle/range?exchange=" ∷ exchange ∷ "&segment=" ∷ seg ∷ "&trading_symbol="
          ∷ symbol ∷ "&start_time=" ∷ start ∷ "&end_time=" ∷ end ∷ "&interval_in_minutes="
          ∷ interval ∷ []))
        non_trading

module _ {F : Type 0} ⦃fl : Float64 F⦄ where
  -- `PlaceOrderRequestFromTradeExecution`
  unfoldable pub place_order_request_from_trade_execution : TradeExecution F → PlaceOrderRequest F
  place_order_request_from_trade_execution exec = record {
    trading_symbol = exec.ticker;
    quantity = exec.quantity;
    price = exec.price;
    trigger_price = nought;
    exchange = exchange_nse;
    segment = segment_cash;
    order_type = order_type_limit;
    transaction_type = if is_short exec.side then transaction_type_sell else transaction_type_buy;
    order_reference_id = exec.execution_ref;
  }
