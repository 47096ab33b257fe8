-- ===== src/Tests/FeedTests.antt =====
-- The universe and the feed connector at concrete inputs.
use navier_stocks.Base.{
  ℕ, ◌≡◌, refl, true, false, Option, none, some, List, [], ◌∷◌, String, if◌then◌else◌, ltb,
}
use navier_stocks.Base.Int.{pos}
use navier_stocks.Float.Fixed.{Fixed, fixed_float}
use navier_stocks.Groww.Types.{exchange_nse, segment_cash}
use navier_stocks.Scout.TickerStore.{TickerStore, new_ticker_store}
use navier_stocks.Scout.Universe.{
  UniverseEntry, build_universe, sector_for_symbol, resolve_universe, sector, as_sector_map,
}
use navier_stocks.Scout.Universe.Sectors.{contains, sector-resolve_universe}
use navier_stocks.Scout.Feed.{FeedConnector, Update, new_feed_connector, process_snapshot}
use navier_stocks.Scout.Feed.Tokens.{process_snapshot_silent}
use navier_stocks.Scout.Feed.Throttle.{IsSpaced, poll_all, poll_all-IsSpaced}
use navier_stocks.Groww.Feed.{FeedClient, new_feed_client}
use navier_stocks.Scout.Feed.{feed_instruments}
use navier_stocks.Scout.Feed.Connection.{Lost, recover}
use navier_stocks.Scout.Feed.Connection.Recovery.{Recovery, recover-Recovery}
use navier_stocks.Tests.Fixtures.{amount}

sector-resolve_universe_example : sector (as_sector_map (resolve_universe "TCS, ACME")) "ACME" ≡ (
    if contains (resolve_universe "TCS, ACME").entries "ACME"
    then sector_for_symbol "ACME"
    else "UNKNOWN")
sector-resolve_universe_example = sector-resolve_universe "TCS, ACME" "ACME"

abbrev entry : String → String → UniverseEntry
entry symbol token = record {
  symbol = symbol;
  exchange = exchange_nse;
  segment = segment_cash;
  exchange_token = token;
  sector = "IT";
}

abbrev two_of_one : List UniverseEntry
two_of_one = entry "TCS" "11536" ∷ entry "TCS2" "11536" ∷ []

abbrev update : ℕ → Update Fixed
update now = record {
  now = now;
  exchange_key = "NSE";
  segment_key = "CASH";
  token_key = "11536";
  data_point = record { ts_in_millis = pos 7; ltp = amount 1_000_000 };
}

abbrev stores : TickerStore Fixed
stores = new_ticker_store (pos 10) (pos 16)

-- Two polls within a second, and one after it.
abbrev three_polls : List (Option (List (Update Fixed)))
three_polls =
    some (update 0 ∷ update 1 ∷ [])
    ∷ none
    ∷ some (update 999 ∷ [])
    ∷ some (update 1_000_000_000 ∷ [])
    ∷ []

poll_all-IsSpaced_example :
    IsSpaced
      (poll_all three_polls (new_feed_connector stores (build_universe two_of_one) true)).published
poll_all-IsSpaced_example = poll_all-IsSpaced stores (build_universe two_of_one) true three_polls

abbrev untold : FeedConnector Fixed
untold = new_feed_connector stores (resolve_universe "TCS") true

process_snapshot_silent_example : process_snapshot (some (update 0 ∷ [])) untold ≡ untold
unfolding resolve_universe new_feed_connector
process_snapshot_silent_example =
    process_snapshot_silent "TCS" (update 0 ∷ []) untold refl (refl, tt)

-- The third attempt connects, and the subscription cannot be sent.
abbrev half_way : Lost
half_way = record {
  is_stopped = false;
  stopped_by_night = false;
  stopped_in_wait = false;
  dial = λ i. if ltb i 2 then some "refused" else none;
  subscribed = some "broken pipe";
}

abbrev cut_off : FeedClient Fixed
cut_off = new_feed_client "token" "" ""

recover-Recovery_example :
    Recovery half_way
      (feed_instruments (build_universe two_of_one))
      cut_off
      (recover half_way (feed_instruments (build_universe two_of_one)) cut_off)
recover-Recovery_example =
    recover-Recovery half_way (feed_instruments (build_universe two_of_one)) cut_off
