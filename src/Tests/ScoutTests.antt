-- ===== src/Tests/ScoutTests.antt =====
-- The scout's stores at concrete inputs.
use navier_stocks.Base.{ℕ, ◌≡◌, refl, arith, List, [], ◌∷◌}
use navier_stocks.Base.Int.{pos}
use navier_stocks.Float.Fixed.{Fixed, fixed_float}
use navier_stocks.Scout.TickStore.{
  Tick, TickStore, new_tick_store, append, recent_prices, recent_volumes, at,
}
use navier_stocks.Scout.TickStore.Slices.{keep_last}
use navier_stocks.Scout.TickStore.Contents.{
  IsRing, contents, append_all, capacity, session_contents,
}
use navier_stocks.Scout.TickerStore.{TickerStore, new_ticker_store}
use navier_stocks.Scout.Candles.{Duration, candles}
use navier_stocks.Scout.Candles.Shape.{candle_volume, tick_volume, candles-volume}
use navier_stocks.Base.{some}
use navier_stocks.Base.Int.{◌+ℤ◌, ◌-ℤ◌, ◌*ℤ◌, ◌/ℤ◌, wrap64}
use navier_stocks.Models.{Side, TradeIntent}
use navier_stocks.Statistics.{sum, mean, variance, std_dev}
use navier_stocks.Scout.TickStore.{recent, ticks_from, at, count}
use navier_stocks.Scout.Candles.{buckets, add_tick, in_order}
use navier_stocks.Scout.Indicators.{bollinger_bands, volume_breakout, vwap_from_candles, vwap}
use navier_stocks.Scout.Breakout.{BreakoutConfig, evaluate, signal}
use navier_stocks.Scout.Breakout.Signals.{Signals, evaluate-Signals}
use navier_stocks.Tests.Fixtures.{amount}

abbrev tick : ℕ → ℕ → ℕ → Tick Fixed
tick price volume at = record { price = amount price; volume = pos volume; timestamp = pos at }

abbrev three_ticks : List (Tick Fixed)
three_ticks = tick 100 5 1 ∷ tick 300 6 2 ∷ tick 200 7 11 ∷ []

-- A store of two ticks that has been given three.
abbrev wrapped : TickStore Fixed
wrapped = append_all (new_tick_store (pos 2)) three_ticks

session_contents_example :
    (contents wrapped ≡ keep_last (capacity (pos 2)) three_ticks) × IsRing wrapped
session_contents_example = session_contents (pos 2) three_ticks

contents_run : contents wrapped ≡ tick 300 6 2 ∷ tick 200 7 11 ∷ []
unfolding append new_tick_store
contents_run = refl

wrapped-IsRing : IsRing wrapped
wrapped-IsRing = (session_contents (pos 2) three_ticks).1

abbrev ten : Duration
ten = record { nanos = pos 10; nonzero = refl }

candles-volume_example : candle_volume (candles wrapped ten) ≡ tick_volume (contents wrapped)
unfolding append new_tick_store
candles-volume_example = candles-volume wrapped ten wrapped-IsRing (refl, (refl, tt)) (omega arith)

abbrev no_symbols : TickerStore Fixed
no_symbols = new_ticker_store (pos 1) (pos 2)

-- A detector with short windows, on two ticks of which the second breaks out.
abbrev short_windows : BreakoutConfig Fixed
short_windows = record {
  bollinger_period = pos 2;
  bollinger_multiplier = amount 5_000;
  volume_window = pos 1;
  volume_threshold = amount 20_000;
  candle_duration = ten;
}

abbrev breaking : TickStore Fixed
breaking = append_all (new_tick_store (pos 2)) (tick 1_000 5 1 ∷ tick 3_000 20 11 ∷ [])

abbrev breaking_intent : TradeIntent Fixed
breaking_intent = record {
  ticker = "TCS";
  side = Side.long;
  current_price = amount 3_000;
  vwap = amount 2_600;
  volume_ratio = amount 40_000;
  signal_reason = "VWAP_breakout_plus_volume_plus_BB";
  timestamp = 12;
}

breaking_run : evaluate short_windows "TCS" breaking 12 ≡ some breaking_intent
unfolding evaluate signal candles buckets add_tick in_order ticks_from at count append
    new_tick_store recent recent_prices recent_volumes vwap_from_candles vwap bollinger_bands
    volume_breakout mean sum variance std_dev fixed_float ◌+ℤ◌ ◌-ℤ◌ ◌*ℤ◌ ◌/ℤ◌ wrap64
breaking_run = refl

evaluate-Signals_example : Signals short_windows "TCS" breaking 12 breaking_intent
evaluate-Signals_example =
    evaluate-Signals short_windows "TCS" breaking 12 breaking_intent breaking_run

abbrev four_prices : List Fixed
four_prices = amount 1_000 ∷ amount 3_000 ∷ amount 2_000 ∷ amount 4_000 ∷ []
