-- ===== src/Groww/OrderTypes.antt =====
-- src/pkg/groww/types.go: the payloads of the order calls.
use navier_stocks.Base.{String}
use navier_stocks.Base.Int.{ℤ}
use navier_stocks.Groww.Types.{Exchange, Segment, OrderType, TransactionType}

-- `OrderStatus`
abbrev pub OrderStatus : Type 0
OrderStatus = String

-- `Product`
abbrev pub Product : Type 0
Product = String

-- `PlaceOrderRequest`
pub record PlaceOrderRequest (F : Type 0) : Type 0 where
  pub trading_symbol : String
  pub quantity : ℤ
  pub price : F
  pub trigger_price : F
  pub exchange : Exchange
  pub segment : Segment
  pub order_type : OrderType
  pub transaction_type : TransactionType
  pub order_reference_id : String

-- `PlaceOrderResponse`
pub record PlaceOrderResponse : Type 0 where
  pub groww_order_id : String
  pub order_status : OrderStatus
  pub order_reference_id : String
  pub remark : String

-- `ModifyOrderRequest`
pub record ModifyOrderRequest (F : Type 0) : Type 0 where
  pub groww_order_id : String
  pub quantity : ℤ
  pub price : F
  pub trigger_price : F
  pub order_type : OrderType
  pub segment : Segment

-- `ModifyOrderResponse`
pub record ModifyOrderResponse : Type 0 where
  pub groww_order_id : String
  pub order_status : OrderStatus

-- `CancelOrderRequest`
pub record CancelOrderRequest : Type 0 where
  pub segment : Segment
  pub groww_order_id : String

-- `CancelOrderResponse`
pub record CancelOrderResponse : Type 0 where
  pub groww_order_id : String
  pub order_status : OrderStatus

-- `OrderStatusResponse`
pub record OrderStatusResponse : Type 0 where
  pub groww_order_id : String
  pub order_status : OrderStatus
  pub remark : String
  pub filled_quantity : ℤ
  pub order_reference_id : String

-- `OrderDetail`
pub record OrderDetail (F : Type 0) : Type 0 where
  pub groww_order_id : String
  pub trading_symbol : String
  pub order_status : OrderStatus
  pub remark : String
  pub quantity : ℤ
  pub price : F
  pub trigger_price : F
  pub filled_quantity : ℤ
  pub remaining_qty : ℤ
  pub average_fill_price : F
  pub deliverable_qty : ℤ
  pub amo_status : String
  pub exchange : Exchange
  pub order_type : OrderType
  pub transaction_type : TransactionType
  pub segment : Segment
  pub product : Product
  pub created_at : String
  pub exchange_time : String
  pub trade_date : String
  pub order_reference_id : String

-- `Trade`
pub record Trade (F : Type 0) : Type 0 where
  pub price : F
  pub isin : String
  pub quantity : ℤ
  pub groww_order_id : String
  pub groww_trade_id : String
  pub exchange_trade_id : String
  pub exchange_order_id : String
  pub trade_status : String
  pub trading_symbol : String
  pub remark : String
  pub exchange : Exchange
  pub segment : Segment
  pub product : Product
  pub transaction_type : TransactionType
  pub created_at : String
  pub trade_date_time : String
  pub settlement_num : String

-- `OrderListEntry`
pub record OrderListEntry (F : Type 0) : Type 0 where
  pub detail : OrderDetail F
