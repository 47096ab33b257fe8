-- ===== src/Scout/Breakout.antt =====
-- src/analysts/quantitative/breakout.go: the detector of breakouts. Its timer and its stop channel are
-- not modelled; a round is `evaluate_all`.
pub mod Signals
use navier_stocks.Base.{
  refl, ℕ, ◌+◌, ◌&&◌, ◌||◌, Bool, true, false, Option, none, some, List, [], ◌∷◌, String, ltb,
  length, if◌then◌else◌,
}
use navier_stocks.Base.Int.{ℤ, pos, ◌+ℤ◌, wrap64, ltb_ℤ}
use navier_stocks.Float.{Float64, nought}
use navier_stocks.Models.{Side, TradeIntent}
use navier_stocks.Scout.TickStore.{TickStore, count, recent_prices, recent_volumes}
use navier_stocks.Scout.TickerStore.{TickerStore, get}
use navier_stocks.Scout.Candles.{Candle, Duration, candles}
use navier_stocks.Scout.Indicators.{
  Bands, VolumeResult, VwapResult, bollinger_bands, volume_breakout, vwap_from_candles,
}

-- `BreakoutConfig`, without the interval of the timer
pub record BreakoutConfig (F : Type 0) : Type 0 where
  pub bollinger_period : ℤ
  pub bollinger_multiplier : F
  pub volume_window : ℤ
  pub volume_threshold : F
  pub candle_duration : Duration

abbrev pub signal_reason : String
signal_reason = "VWAP_breakout_plus_volume_plus_BB"

module _ {F : Type 0} ⦃fl : Float64 F⦄ where
  -- `DefaultBreakoutConfig`
  unfoldable pub default_breakout_config : BreakoutConfig F
  default_breakout_config = record {
    bollinger_period = pos 20;
    bollinger_multiplier = fl.decimal 2 0;
    volume_window = pos 10;
    volume_threshold = fl.decimal 2 0;
    candle_duration = record { nanos = pos 60_000_000_000; nonzero = refl };
  }

  abbrev intent_for : String → Side → F → VwapResult F → VolumeResult F → ℕ → TradeIntent F
  intent_for symbol side price line volume now = record {
    ticker = symbol;
    side = side;
    current_price = price;
    vwap = line.vwap;
    volume_ratio = volume.ratio;
    signal_reason = signal_reason;
    timestamp = now;
  }

  -- The signal logic of `evaluate`, on the last close and the three indicators.
  unfoldable pub signal :
      String → F → VwapResult F → Bands F → VolumeResult F → ℕ → Option (TradeIntent F)
  signal symbol price line bands volume now =
      if fl.lt line.vwap price && volume.is_breakout && fl.lt bands.upper price
      then some (intent_for symbol Side.long price line volume now)
      else if fl.lt price line.vwap && volume.is_breakout && fl.lt price bands.lower
      then some (intent_for symbol Side.short price line volume now)
      else none

  -- The close of the last candle.
  abbrev pub last_close : F → List (Candle F) → F
  last_close d [] = d
  last_close d (c ∷ cs) = last_close c.close cs

  with_bands :
      BreakoutConfig F
      → String
      → TickStore F
      → ℕ
      → F
      → VwapResult F
      → Option (Bands F)
      → Option (TradeIntent F)
  with_bands cfg symbol ts now price line none = none
  with_bands cfg symbol ts now price line (some bands) =
      let n = wrap64 (cfg.volume_window +ℤ pos 1) in
      let volumes = recent_volumes ts n in
      if ltb_ℤ (pos (length volumes)) n
      then none
      else signal symbol price line bands
          (volume_breakout volumes cfg.volume_window cfg.volume_threshold) now

  -- `(*BreakoutDetector).evaluate`
  unfoldable pub evaluate : BreakoutConfig F → String → TickStore F → ℕ → Option (TradeIntent F)
  unfolding with_bands
  evaluate cfg symbol ts now =
      let cs = candles ts cfg.candle_duration in
      let line = vwap_from_candles cs in
      let prices = recent_prices ts cfg.bollinger_period in
      if ltb (length cs) 2
      then none
      else if line.valid
      then (if ltb_ℤ (pos (length prices)) cfg.bollinger_period
          then none
          else with_bands cfg symbol ts now (last_close nought cs) line
              (bollinger_bands prices cfg.bollinger_period cfg.bollinger_multiplier))
      else none

  abbrev with_store : BreakoutConfig F → String → ℕ → Option (TickStore F) → Option (TradeIntent F)
  with_store cfg symbol now none = none
  with_store cfg symbol now (some ts) =
      if ltb (count ts) 2 then none else evaluate cfg symbol ts now

  abbrev cons_some : Option (TradeIntent F) → List (TradeIntent F) → List (TradeIntent F)
  cons_some none intents = intents
  cons_some (some intent) intents = intent ∷ intents

  -- `(*BreakoutDetector).evaluateAll`: the intents given to `publish`, in their order.
  unfoldable pub evaluate_all :
      BreakoutConfig F → List String → TickerStore F → ℕ → List (TradeIntent F)
  evaluate_all cfg [] store now = []
  evaluate_all cfg (symbol ∷ symbols) store now =
      cons_some (with_store cfg symbol now (get store symbol)) (evaluate_all cfg symbols store now)
