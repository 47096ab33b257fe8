-- ===== src/Groww/FeedTypes.antt =====
-- src/pkg/groww/types.go: the payloads of the WebSocket feed.
use navier_stocks.Base.{List, String}
use navier_stocks.Base.Int.{ℤ}
use navier_stocks.Groww.Types.{Exchange, Segment}
use navier_stocks.Groww.DataTypes.{DepthEntry}

-- `FeedMetadata`
pub record FeedMetadata : Type 0 where
  pub exchange : Exchange
  pub segment : Segment
  pub feed_type : String
  pub feed_key : String

-- `IndexData`
pub record IndexData (F : Type 0) : Type 0 where
  pub ts_in_millis : ℤ
  pub value : F

-- `MarketDepthData`
pub record MarketDepthData (F : Type 0) : Type 0 where
  pub ts_in_millis : ℤ
  pub buy_book : List (ℤ × DepthEntry F)
  pub sell_book : List (ℤ × DepthEntry F)
