-- ===== src/Scout/Feed.antt =====
-- src/analysts/quantitative/feed.go: the feed connector. Go walks the maps of a snapshot in any
-- order, so a snapshot is the list of its entries in the order of the walk, each with the clock that
-- `publishPrice` reads at it. The goroutines, their tickers and the reconnection are not modelled.

pub mod Tokens
pub mod Throttle
pub mod Connection
use navier_stocks.Base.{
  ℕ, ◌+◌, Bool, true, false, ◌||◌, Option, none, some, List, [], ◌∷◌, String, ltb, ◌==◌,
  if◌then◌else◌, map,
}
use navier_stocks.Base.Int.{ℤ, pos, ◌*ℤ◌, wrap64}
use navier_stocks.Base.Text.{str_eq, is_empty}
use navier_stocks.Base.Dict.{Dict, lookup, insert}
use navier_stocks.Float.{Float64}
use navier_stocks.Models.{PriceTick}
use navier_stocks.Replay.{price_subject}
use navier_stocks.Groww.Types.{Exchange, Segment, FeedInstrument, LtpData}
use navier_stocks.Scout.TickStore.{Tick, TickStore, count, append, update_latest_volume}
use navier_stocks.Scout.TickerStore
use navier_stocks.Scout.TickerStore.{TickerStore}
use navier_stocks.Scout.Universe.{UniverseEntry, Universe}

-- `PricePublishInterval`
abbrev pub price_publish_interval : ℕ
price_publish_interval = 1_000_000_000

-- A price that has been handed to JetStream: when, for which symbol, and the tick.
pub record Publication (F : Type 0) : Type 0 where
  pub at : ℕ
  pub symbol : String
  pub subject : String
  pub tick : PriceTick F

-- `FeedConnector`. `wired` says whether there is a JetStream handle; `published` is what it was given,
-- newest first.
pub record FeedConnector (F : Type 0) : Type 0 where
  pub ts : TickerStore F
  pub universe : Universe
  pub wired : Bool
  pub last_price_pub : Dict ℕ
  pub published : List (Publication F)

-- One entry of a snapshot, with the clock.
pub record Update (F : Type 0) : Type 0 where
  pub now : ℕ
  pub exchange_key : String
  pub segment_key : String
  pub token_key : String
  pub data_point : LtpData F

-- `NewFeedConnector`
unfoldable pub new_feed_connector : {F : Type 0} → TickerStore F → Universe → Bool → FeedConnector F
new_feed_connector ts u wired = record {
  ts = ts;
  universe = u;
  wired = wired;
  last_price_pub = [];
  published = [];
}

-- The loop over the entries in `tokenSymbol`.
unfoldable pub symbol_in : List UniverseEntry → String → Option String
symbol_in [] token = none
symbol_in (e ∷ es) token =
    if str_eq e.exchange_token token then some e.symbol else symbol_in es token

abbrev pub or_scan : Option String → Option String → Option String
or_scan (some symbol) scanned = some symbol
or_scan none scanned = scanned

-- `tokenSymbol`; `none` is the empty text.
unfoldable pub token_symbol : Universe → String → Option String
unfolding symbol_in
token_symbol u token = or_scan (lookup token u.token_to_symbol) (symbol_in u.entries token)

-- `feedInstruments`
unfoldable pub feed_instruments : Universe → List FeedInstrument
feed_instruments u =
    map
      (λ (e : UniverseEntry). record {
        exchange = e.exchange;
        segment = e.segment;
        exchange_token = e.exchange_token;
      })
      u.entries

abbrev pub is_throttled : Option ℕ → ℕ → Bool
is_throttled none now = false
is_throttled (some last) now = ltb now (last + price_publish_interval)

module _ {F : Type 0} where
  -- `publishPrice`; an error of the publishing is only logged.
  unfoldable pub publish_price : ℕ → String → F → ℤ → FeedConnector F → FeedConnector F
  publish_price now symbol price millis fc =
      if fc.wired
      then (if is_throttled (lookup symbol fc.last_price_pub) now then fc else record fc {
        last_price_pub = insert symbol now fc.last_price_pub;
        published =
            record {
              at = now;
              symbol = symbol;
              subject = price_subject symbol;
              tick = record { ticker = symbol; price = price; ts_in_millis = millis };
            }
            ∷ fc.published;
      })
      else fc

  abbrev pub tick_of : LtpData F → Tick F
  tick_of d = record {
    price = d.ltp;
    volume = pos 0;
    timestamp = wrap64 (d.ts_in_millis *ℤ pos 1_000_000);
  }

  abbrev pub ingest :
      Update F → String → Option (TickStore F) × TickerStore F → FeedConnector F → FeedConnector F
  ingest up symbol (none, ts) fc = record fc { ts = ts }
  ingest up symbol (some s, ts) fc =
      publish_price up.now symbol up.data_point.ltp up.data_point.ts_in_millis
        (record fc { ts = TickerStore.put ts symbol (append s (tick_of up.data_point)) })

-- The answer of `GetQuote`, its volume, for an exchange, a segment and a symbol.
abbrev pub Quotes : Type 0
Quotes = Exchange → Segment → String → Option ℤ

module _ {F : Type 0} ⦃fl : Float64 F⦄ where
  -- One round of the walk in `processSnapshot`.
  abbrev pub process_update : Update F → Option String → FeedConnector F → FeedConnector F
  process_update up none fc = fc
  process_update up (some symbol) fc =
      if is_empty symbol then fc else ingest up symbol (TickerStore.store fc.ts symbol) fc

  unfoldable pub process_updates : List (Update F) → FeedConnector F → FeedConnector F
  unfolding publish_price token_symbol
  process_updates [] fc = fc
  process_updates (up ∷ ups) fc =
      process_updates ups (process_update up (token_symbol fc.universe up.token_key) fc)

  -- `processSnapshot`, with what `GetLTP` returns.
  unfoldable pub process_snapshot : Option (List (Update F)) → FeedConnector F → FeedConnector F
  unfolding process_updates
  process_snapshot none fc = fc
  process_snapshot (some ups) fc = process_updates ups fc

  abbrev pub patch_volume : String → Option (TickStore F) → Option ℤ → TickerStore F → TickerStore F
  patch_volume symbol (some s) (some volume) ts =
      if count s == 0 then ts else TickerStore.put ts symbol (update_latest_volume s volume)
  patch_volume symbol (some s) none ts = ts
  patch_volume symbol none answer ts = ts

  -- `pollQuotes`
  unfoldable pub poll_quotes : Quotes → List UniverseEntry → TickerStore F → TickerStore F
  poll_quotes quotes [] ts = ts
  poll_quotes quotes (e ∷ es) ts = poll_quotes quotes es (
      patch_volume e.symbol (TickerStore.get ts e.symbol) (quotes e.exchange e.segment e.symbol) ts)
