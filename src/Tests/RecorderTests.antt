-- ===== src/Tests/RecorderTests.antt =====
-- The recorder and the WebSocket client at concrete inputs.
use navier_stocks.Base.{
  ℕ, ◌≡◌, refl, true, false, Option, none, some, List, [], ◌∷◌, ◌++◌, ◌+◌, ◌-◌, ◌==◌, ◌&&◌, ap,
  arith, String, ltb, if◌then◌else◌, map,
}
use navier_stocks.Base.Int.{pos, pos_part}
use navier_stocks.Base.Scan.{Bytes, drop_cr, scan_from, whole_lines, torn_tail, has_newline}
use navier_stocks.Base.Try.{Try, ok, err}
use navier_stocks.Base.Dict.{Dict, lookup, lookup_or}
use navier_stocks.Float.Fixed.{Fixed, fixed_float}
use navier_stocks.Models.{PriceTick}
use navier_stocks.Replay.{load_ticks, sort_ticks, decoded, ticks}
use navier_stocks.Recorder.{
  TickStore, Faults, Message, bytes_of, open_tick_store, rotate, append, handle_price, record_all,
}
use navier_stocks.Recorder.Archive.{session, ticks_on, IsStored, behind, record_all-load_ticks}
use navier_stocks.Recorder.Turns.{no_faults}
use navier_stocks.Recorder.Jam.{record_all_jams}
use navier_stocks.Groww.Feed.{FeedClient, FeedMessage, new_feed_client, consume, reconnect}
use navier_stocks.Groww.Feed.Backoff.{Reconnected, reconnect-Reconnected}
use navier_stocks.Groww.Feed.Snapshots.{Holds, last_ltp, last_depth, last_index, consume-Holds}
use navier_stocks.Tests.Fixtures.{amount}

abbrev tick : ℕ → PriceTick Fixed
tick millis = record { ticker = "TCS"; price = amount 1_000_000; ts_in_millis = pos millis }

abbrev two_days : List (String × Option (PriceTick Fixed))
two_days =
    ("2026-01-05", some (tick 7))
    ∷ ("2026-01-05", none)
    ∷ ("2026-01-05", some (tick 3))
    ∷ ("2026-01-06", some (tick 9))
    ∷ []

-- The timestamp in one byte, between braces.
abbrev marshal : PriceTick Fixed → Try Bytes
marshal t = ok (123 ∷ (32 + pos_part t.ts_in_millis) ∷ 125 ∷ [])

abbrev decode : Bytes → Option (PriceTick Fixed)
decode (start ∷ c ∷ stop ∷ []) = if start == 123 && stop == 125 then some (tick (c - 32)) else none
decode other = none

-- The file ends in the beginning of a line.
abbrev old_files : Dict Bytes
old_files = ("2026-01-05", 123 ∷ 37 ∷ 125 ∷ 10 ∷ 123 ∷ []) ∷ []

stored :
    (millis : ℕ)
    → has_newline (123 ∷ (32 + millis) ∷ 125 ∷ []) ≡ false
    → IsStored marshal decode (tick millis)
unfolding drop_cr
stored millis h = record {
  line = 123 ∷ (32 + millis) ∷ 125 ∷ [];
  encoded = refl;
  one_line = h;
  bare = refl;
  decodes = ap (λ m. some (tick m)) (omega arith);
}

record_all-load_ticks_example :
    load_ticks decode none none
      (bytes_of "2026-01-05" (record_all marshal (session two_days) (open_tick_store old_files)))
    ≡ ticks (
        sort_ticks (
          decoded (map decode (map drop_cr (whole_lines (lookup_or "2026-01-05" old_files []))))
          ++ behind marshal decode
              (torn_tail (lookup_or "2026-01-05" old_files []))
              (ticks_on "2026-01-05" two_days)))
record_all-load_ticks_example =
    record_all-load_ticks marshal decode old_files two_days "2026-01-05"
      (stored 7 refl, (stored 3 refl, (stored 9 refl, tt)))

-- The first of the new ticks is lost behind the beginning of a line.
torn_line :
    load_ticks decode none none
      (bytes_of "2026-01-05" (record_all marshal (session two_days) (open_tick_store old_files)))
    ≡ ticks (tick 3 ∷ tick 5 ∷ [])
unfolding load_ticks sort_ticks scan_from drop_cr record_all session handle_price append rotate
    open_tick_store lookup
torn_line = refl

-- The file of the day before is open.
abbrev overnight : TickStore
overnight = record {
  file = some (record { name = "2026-01-05"; is_open = true });
  day = "2026-01-05";
  files = old_files;
}

abbrev full_disk : Faults
full_disk = record no_faults { on_close = some "no space left on device" }

abbrev next_day : List (Message Fixed)
next_day =
    record { faults = no_faults; day = "2026-01-06"; tick = some (tick 11) }
    ∷ record { faults = no_faults; day = "2026-01-07"; tick = some (tick 12) }
    ∷ []

record_all_jams_example :
    bytes_of "2026-01-07" (
      record_all marshal
        (record { faults = full_disk; day = "2026-01-06"; tick = some (tick 9) } ∷ next_day)
        overnight)
    ≡ bytes_of "2026-01-07" overnight
record_all_jams_example =
    record_all_jams marshal full_disk "2026-01-06" "no space left on device" (tick 9)
      (123 ∷ 41 ∷ 125 ∷ []) (record { name = "2026-01-05"; is_open = true }) next_day overnight
      "2026-01-07" refl refl refl refl (refl, (refl, (refl, tt)))

abbrev feed : FeedClient Fixed
feed = record (new_feed_client "token" "" "") { has_conn = true; connected = true }

-- The first three attempts fail.
abbrev fourth_time : ℕ → Option String
fourth_time i = if ltb i 3 then some "refused" else none

reconnect-Reconnected_example : Reconnected fourth_time 20 feed (reconnect fourth_time 20 feed)
reconnect-Reconnected_example = reconnect-Reconnected fourth_time 20 feed

abbrev prices : String → Option (FeedMessage Fixed)
prices token = some (record {
  meta = record { exchange = "NSE"; segment = "CASH"; feed_type = "ltp"; feed_key = token };
  ltp = some (
      ok (
        (
          "NSE",
          ("CASH", (token, record { ts_in_millis = pos 1; ltp = amount 1_000_000 }) ∷ []) ∷ [],
        )
        ∷ []));
  depth = some (err "unexpected end of JSON input");
  index = none;
})

abbrev two_prices : List (Option (FeedMessage Fixed))
two_prices = prices "11536" ∷ none ∷ prices "1594" ∷ []

feed_open : feed.has_conn ≡ true
feed_open = refl

consume-Holds_example :
    Holds
      (last_ltp feed.ltp two_prices)
      (last_depth feed.depth two_prices)
      (last_index feed.index two_prices)
      (consume two_prices feed)
    × ((consume two_prices feed).connected ≡ false)
consume-Holds_example = consume-Holds two_prices feed feed_open
