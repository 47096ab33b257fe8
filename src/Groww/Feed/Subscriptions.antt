-- ===== src/Groww/Feed/Subscriptions.antt =====
-- src/pkg/groww/feed.go: the callbacks, the subscriptions and the readers of the client. `given` says
-- whether a call has a callback.
use navier_stocks.Base.{Bool, true, Option, List, [], String, if◌then◌else◌}
use navier_stocks.Groww.Types.{FeedInstrument, LtpData}
use navier_stocks.Groww.FeedTypes.{IndexData, MarketDepthData}
use navier_stocks.Groww.Feed.{Snapshot, FeedClient, subscribe, unsubscribe}

module _ {F : Type 0} where
  -- `SetFeedCallback`, of a callback or nil
  unfoldable pub set_feed_callback : Bool → FeedClient F → FeedClient F
  set_feed_callback given f = record f { on_data_set = given }

  -- `SetLTPCallback`, of a callback or nil
  unfoldable pub set_ltp_callback : Bool → FeedClient F → FeedClient F
  set_ltp_callback given f = record f { on_ltp_set = given }

  -- `SetDepthCallback`, of a callback or nil
  unfoldable pub set_depth_callback : Bool → FeedClient F → FeedClient F
  set_depth_callback given f = record f { on_depth_set = given }

  -- `SubscribeLTP`
  unfoldable pub subscribe_ltp :
      Option String → Bool → List FeedInstrument → FeedClient F → Option String × FeedClient F
  unfolding subscribe
  subscribe_ltp answer given instruments f =
      subscribe answer "ltp" instruments (if given then record f { on_ltp_set = true } else f)

  -- `SubscribeMarketDepth`
  unfoldable pub subscribe_market_depth :
      Option String → Bool → List FeedInstrument → FeedClient F → Option String × FeedClient F
  unfolding subscribe
  subscribe_market_depth answer given instruments f =
      subscribe answer "market_depth" instruments
        (if given then record f { on_depth_set = true } else f)

  -- `SubscribeIndexValue`
  unfoldable pub subscribe_index_value :
      Option String → List FeedInstrument → FeedClient F → Option String × FeedClient F
  unfolding subscribe
  subscribe_index_value answer instruments f = subscribe answer "index_value" instruments f

  -- `SubscribeEquityOrderUpdates`
  unfoldable pub subscribe_equity_order_updates :
      Option String → Bool → FeedClient F → Option String × FeedClient F
  unfolding subscribe
  subscribe_equity_order_updates answer given f =
      subscribe answer "order_updates_equity" []
        (if given then record f { on_data_set = true } else f)

  -- `SubscribeFNOOrderUpdates`
  unfoldable pub subscribe_fno_order_updates :
      Option String → Bool → FeedClient F → Option String × FeedClient F
  unfolding subscribe
  subscribe_fno_order_updates answer given f =
      subscribe answer "order_updates_fno" [] (if given then record f { on_data_set = true } else f)

  -- `SubscribeFNOPositionUpdates`
  unfoldable pub subscribe_fno_position_updates :
      Option String → Bool → FeedClient F → Option String × FeedClient F
  unfolding subscribe
  subscribe_fno_position_updates answer given f =
      subscribe answer "position_updates_fno" []
        (if given then record f { on_data_set = true } else f)

  -- `UnsubscribeLTP`
  unfoldable pub unsubscribe_ltp :
      Option String → List FeedInstrument → FeedClient F → Option String × FeedClient F
  unfolding unsubscribe
  unsubscribe_ltp answer instruments f = unsubscribe answer "ltp" instruments f

  -- `UnsubscribeMarketDepth`
  unfoldable pub unsubscribe_market_depth :
      Option String → List FeedInstrument → FeedClient F → Option String × FeedClient F
  unfolding unsubscribe
  unsubscribe_market_depth answer instruments f = unsubscribe answer "market_depth" instruments f

  -- `UnsubscribeIndexValue`
  unfoldable pub unsubscribe_index_value :
      Option String → List FeedInstrument → FeedClient F → Option String × FeedClient F
  unfolding unsubscribe
  unsubscribe_index_value answer instruments f = unsubscribe answer "index_value" instruments f

  -- `GetLTP`
  unfoldable pub get_ltp : FeedClient F → Snapshot (LtpData F)
  get_ltp f = f.ltp

  -- `GetMarketDepth`
  unfoldable pub get_market_depth : FeedClient F → Snapshot (MarketDepthData F)
  get_market_depth f = f.depth

  -- `GetIndexValue`
  unfoldable pub get_index_value : FeedClient F → Snapshot (IndexData F)
  get_index_value f = f.index

  -- `IsConnected`
  unfoldable pub is_connected : FeedClient F → Bool
  is_connected f = f.connected
