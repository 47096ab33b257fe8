-- ===== src/Scout/Indicators.antt =====
-- src/analysts/quantitative/indicators: bollinger.go, volume.go and vwap.go. A slice that indices cut
-- is `take` and `drop` of a list.
pub mod Agreement
use navier_stocks.Base.{
  ℕ, zero, suc, ◌+◌, ◌-◌, ◌||◌, Bool, true, false, not, Option, none, some, List, [], ◌∷◌, ltb, leb,
  ◌==◌, length, if◌then◌else◌, take, drop, get_or, map,
}
use navier_stocks.Base.Int.{ℤ, pos, pos_part, ltb_ℤ}
use navier_stocks.Float.{Float64, nought}
use navier_stocks.Statistics.{mean, std_dev}
use navier_stocks.Scout.Candles.{Candle}

-- `Bands`
pub record Bands (F : Type 0) : Type 0 where
  pub upper : F
  pub middle : F
  pub lower : F

-- `VolumeResult`
pub record VolumeResult (F : Type 0) : Type 0 where
  pub is_breakout : Bool
  pub current_volume : ℤ
  pub volume_sma : F
  pub ratio : F
  pub window : ℤ

-- `VWAPResult`
pub record VwapResult (F : Type 0) : Type 0 where
  pub vwap : F
  pub total_volume : F
  pub price_volume : F
  pub valid : Bool

-- `CumulativeVWAP`
pub record CumulativeVwap (F : Type 0) : Type 0 where
  pub pv_sum : F
  pub v_sum : F

-- The last element of the volumes.
abbrev pub last_volume : List ℤ → ℤ
last_volume volumes = get_or volumes (length volumes - 1) (pos 0)

module _ {F : Type 0} ⦃fl : Float64 F⦄ where
  abbrev pub bands_of : F → List F → Bands F
  bands_of multiplier window =
      let middle = mean window in
      let sd = std_dev window in
      record {
        upper = fl.add middle (fl.mul multiplier sd);
        middle = middle;
        lower = fl.sub middle (fl.mul multiplier sd);
      }

  -- The test that both functions on bands begin with.
  abbrev too_short : List F → ℤ → Bool
  too_short prices period = ltb_ℤ period (pos 2) || ltb (length prices) (pos_part period)

  -- `BollingerBands`, with `none` for ok=false
  unfoldable pub bollinger_bands : List F → ℤ → F → Option (Bands F)
  bollinger_bands prices period multiplier =
      if too_short prices period
      then none
      else some (bands_of multiplier (drop (length prices - pos_part period) prices))

  -- The loop of `BollingerBandsSeries`, from index `i` on, with the rounds left.
  abbrev pub bands_from : List F → ℕ → F → ℕ → ℕ → List (Bands F)
  bands_from prices period multiplier i zero = []
  bands_from prices period multiplier i (suc rounds) =
      bands_of multiplier (take period (drop i prices))
      ∷ bands_from prices period multiplier (suc i) rounds

  -- `BollingerBandsSeries`; the nil of a bad period is the empty list.
  unfoldable pub bollinger_bands_series : List F → ℤ → F → List (Bands F)
  bollinger_bands_series prices period multiplier =
      if too_short prices period
      then []
      else bands_from prices (pos_part period) multiplier 0 (length prices - pos_part period + 1)

  -- `BandWidth`
  unfoldable pub band_width : Bands F → F
  band_width b =
      if fl.eq b.middle nought
      then nought
      else fl.mul (fl.div (fl.sub b.upper b.lower) b.middle) (fl.decimal 100 0)

  -- `PercentB`
  unfoldable pub percent_b : F → Bands F → F
  percent_b price b =
      let denom = fl.sub b.upper b.lower in
      if fl.eq denom nought then nought else fl.div (fl.sub price b.lower) denom

  -- The volumes before the last one that make the baseline.
  abbrev pub baseline : List ℤ → ℤ → List F
  baseline volumes window =
      let before = length volumes - 1 in
      let lookback = if ltb (pos_part window) before then pos_part window else before in
      map fl.of_int (take lookback (drop (before - lookback) volumes))

  -- `VolumeBreakout`
  unfoldable pub volume_breakout : List ℤ → ℤ → F → VolumeResult F
  volume_breakout volumes window threshold =
      if ltb (length volumes) 2 || (ltb_ℤ window (pos 1) || fl.le threshold nought)
      then record {
        is_breakout = false;
        current_volume = pos 0;
        volume_sma = nought;
        ratio = nought;
        window = window;
      }
      else let current = last_volume volumes in
        let sma = mean (baseline volumes window) in
        if fl.eq sma nought
        then record {
          is_breakout = false;
          current_volume = current;
          volume_sma = nought;
          ratio = nought;
          window = window;
        }
        else let ratio = fl.div (fl.of_int current) sma in
          record {
            is_breakout = fl.le threshold ratio;
            current_volume = current;
            volume_sma = sma;
            ratio = ratio;
            window = window;
          }

  abbrev pub no_vwap : VwapResult F
  no_vwap = record { vwap = nought; total_volume = nought; price_volume = nought; valid = false }

  -- The loop of `VWAP`: the sums of price times volume, and of volume.
  abbrev pub vwap_sums : F → F → List F → List ℤ → F × F
  vwap_sums pv v [] volumes = (pv, v)
  vwap_sums pv v (p ∷ prices) [] = (pv, v)
  vwap_sums pv v (p ∷ prices) (i ∷ volumes) =
      vwap_sums (fl.add pv (fl.mul p (fl.of_int i))) (fl.add v (fl.of_int i)) prices volumes

  -- `VWAP`
  unfoldable pub vwap : List F → List ℤ → VwapResult F
  vwap prices volumes =
      if length prices == 0 || (length volumes == 0 || not (length prices == length volumes))
      then no_vwap
      else let sums = vwap_sums nought nought prices volumes in
        if fl.eq sums.1 nought then no_vwap else record {
          vwap = fl.div sums.0 sums.1;
          total_volume = sums.1;
          price_volume = sums.0;
          valid = true;
        }

  abbrev closes_of : List (Candle F) → List F
  closes_of [] = []
  closes_of (c ∷ cs) = c.close ∷ closes_of cs

  abbrev typical_of : List (Candle F) → List F
  typical_of [] = []
  typical_of (c ∷ cs) =
      fl.div (fl.add (fl.add c.high c.low) c.close) (fl.decimal 3 0) ∷ typical_of cs

  abbrev candle_volumes : List (Candle F) → List ℤ
  candle_volumes [] = []
  candle_volumes (c ∷ cs) = c.volume ∷ candle_volumes cs

  -- `VWAPFromCandles`
  unfoldable pub vwap_from_candles : List (Candle F) → VwapResult F
  vwap_from_candles cs = if length cs == 0 then no_vwap else vwap (closes_of cs) (candle_volumes cs)

  -- `VWAPFromCandlesTypical`
  unfoldable pub vwap_from_candles_typical : List (Candle F) → VwapResult F
  vwap_from_candles_typical cs =
      if length cs == 0 then no_vwap else vwap (typical_of cs) (candle_volumes cs)

  -- `NewCumulativeVWAP`
  unfoldable pub new_cumulative_vwap : CumulativeVwap F
  new_cumulative_vwap = record { pv_sum = nought; v_sum = nought }

  -- `(*CumulativeVWAP).Value`
  unfoldable pub value : CumulativeVwap F → F
  value cv = if fl.eq cv.v_sum nought then nought else fl.div cv.pv_sum cv.v_sum

  -- `(*CumulativeVWAP).Add`, without its result, which is `Value` of the new state
  unfoldable pub add : F → ℤ → CumulativeVwap F → CumulativeVwap F
  add price volume cv = record {
    pv_sum = fl.add cv.pv_sum (fl.mul price (fl.of_int volume));
    v_sum = fl.add cv.v_sum (fl.of_int volume);
  }

  -- `VWAPBand`
  unfoldable pub vwap_band : F → F → F × F
  vwap_band price line = if fl.eq line nought then (nought, nought) else (
    fl.sub price line,
    fl.mul (fl.sub (fl.div price line) (fl.decimal 1 0)) (fl.decimal 100 0),
  )
