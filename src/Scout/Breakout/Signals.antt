-- ===== src/Scout/Breakout/Signals.antt =====
-- src/analysts/quantitative/breakout.go: what a signal says.
use mathlib.Core.Path.{subst, subst⁻¹}
use navier_stocks.Base.{
  ℕ, ◌≤◌, ◌≡◌, refl, ap, ◌∙◌, inl, inr, ◌&&◌, ◌||◌, true, false, Option, none, some, String, arith,
  length, Bool-cases,
}
use navier_stocks.Base.Int.{pos, ◌+ℤ◌, wrap64, ltb_ℤ}
use navier_stocks.Base.Text.{is_empty}
use navier_stocks.Float.{Float64, nought}
use navier_stocks.Models.{Side, TradeIntent, validate_intent, is_long, is_short}
use navier_stocks.Models.Laws.{validate_intent_iff}
use navier_stocks.Scout.TickStore.{TickStore, recent_prices, recent_volumes}
use navier_stocks.Scout.Candles.{candles}
use navier_stocks.Scout.Indicators.{
  Bands, VolumeResult, VwapResult, bollinger_bands, volume_breakout, vwap_from_candles,
}
use navier_stocks.Scout.Breakout.{
  BreakoutConfig, signal, evaluate, last_close, with_bands, intent_for,
}
use navier_stocks.Trader.PaperTrader.Closings.{IsEntryReason}

module _ {F : Type 0} ⦃fl : Float64 F⦄ where
  -- A price beyond the VWAP and beyond the band of its side, on a breakout of volume.
  abbrev pub IsBeyond : Side → F → VwapResult F → Bands F → Type 0
  IsBeyond Side.long price line bands =
      (fl.lt line.vwap price ≡ true) × (fl.lt bands.upper price ≡ true)
  IsBeyond Side.short price line bands =
      (fl.lt price line.vwap ≡ true) × (fl.lt price bands.lower ≡ true)
  IsBeyond (Side.other_side s) price line bands = ⊥

  pub record Fires (symbol : String) (price : F) (line : VwapResult F) (bands : Bands F)
      (volume : VolumeResult F) (now : ℕ) (intent : TradeIntent F) : Type 0 where
    pub beyond : IsBeyond intent.side price line bands
    pub confirmed : volume.is_breakout ≡ true
    pub shape : intent ≡ intent_for symbol intent.side price line volume now

  signal-Fires :
      (symbol : String) (price : F) (line : VwapResult F) (bands : Bands F)
      (volume : VolumeResult F) (now : ℕ) (intent : TradeIntent F)
      → signal symbol price line bands volume now ≡ some intent
      → Fires symbol price line bands volume now intent
  unfolding signal
  signal-Fires symbol price line bands volume now intent h =
      elim (Bool-cases (fl.lt line.vwap price && (volume.is_breakout && fl.lt bands.upper price))) [
        | inl up ↦
            let e : intent_for symbol Side.long price line volume now ≡ intent =
              ground (arith, h, up) in
            subst (Fires symbol price line bands volume now) e (record {
              beyond = (ground (arith, up), ground (arith, up));
              confirmed = ground (arith, up);
              shape = refl;
            })
        | inr level ↦
            elim (Bool-cases
              (fl.lt price line.vwap && (volume.is_breakout && fl.lt price bands.lower))) [
                | inl down ↦
                    let e : intent_for symbol Side.short price line volume now ≡ intent =
                      ground (arith, h, level, down) in
                    subst (Fires symbol price line bands volume now) e (record {
                      beyond = (ground (arith, down), ground (arith, down));
                      confirmed = ground (arith, down);
                      shape = refl;
                    })
                | inr flat ↦ ground (arith, h, level, flat)
              ]
      ]

  with_bands-Fires :
      (cfg : BreakoutConfig F) (symbol : String) (ts : TickStore F) (now : ℕ) (price : F)
      (line : VwapResult F) (found : Option (Bands F)) (intent : TradeIntent F)
      → with_bands cfg symbol ts now price line found ≡ some intent
      → (bands : Bands F) × (found ≡ some bands)
        × (let n = wrap64 (cfg.volume_window +ℤ pos 1) in
            let volumes = recent_volumes ts n in
            (ltb_ℤ (pos (length volumes)) n ≡ false)
            × Fires symbol price line bands
                (volume_breakout volumes cfg.volume_window cfg.volume_threshold)
                now
                intent)
  unfolding with_bands
  with_bands-Fires cfg symbol ts now price line none intent h = ground arith
  with_bands-Fires cfg symbol ts now price line (some bands) intent h =
      let n = wrap64 (cfg.volume_window +ℤ pos 1) in
      let volumes = recent_volumes ts n in
      elim (Bool-cases (ltb_ℤ (pos (length volumes)) n)) [
        | inl few ↦ ground (arith, h, few)
        | inr enough ↦ (
          bands,
          refl,
          (
            enough,
            signal-Fires symbol price line bands
                (volume_breakout volumes cfg.volume_window cfg.volume_threshold) now intent
                (ground (arith, h, enough)),
          ),
        )
      ]

  -- What stands behind an intent of the detector.
  pub record Signals (cfg : BreakoutConfig F) (symbol : String) (ts : TickStore F) (now : ℕ)
      (intent : TradeIntent F) : Type 0 where
    pub bands : Bands F
    pub two_candles : 2 ≤ length (candles ts cfg.candle_duration)
    pub line_valid : (vwap_from_candles (candles ts cfg.candle_duration)).valid ≡ true
    pub bands_found :
        bollinger_bands
          (recent_prices ts cfg.bollinger_period)
          cfg.bollinger_period
          cfg.bollinger_multiplier
        ≡ some bands
    pub volumes_enough :
        let n = wrap64 (cfg.volume_window +ℤ pos 1) in
        ltb_ℤ (pos (length (recent_volumes ts n))) n ≡ false
    pub fires :
        Fires symbol
          (last_close nought (candles ts cfg.candle_duration))
          (vwap_from_candles (candles ts cfg.candle_duration))
          bands
          (volume_breakout
            (recent_volumes ts (wrap64 (cfg.volume_window +ℤ pos 1)))
            cfg.volume_window
            cfg.volume_threshold)
          now
          intent

  -- An intent of the detector has the close of the last of two or more candles as its price, beyond the
  -- valid VWAP of the candles and beyond the Bollinger band of its side, on a breakout of volume.
  pub evaluate-Signals :
      (cfg : BreakoutConfig F) (symbol : String) (ts : TickStore F) (now : ℕ)
      (intent : TradeIntent F)
      → evaluate cfg symbol ts now ≡ some intent
      → Signals cfg symbol ts now intent
  unfolding evaluate
  evaluate-Signals cfg symbol ts now intent h =
      let cs = candles ts cfg.candle_duration in
      let prices = recent_prices ts cfg.bollinger_period in
      let (bands, e, rest) =
        with_bands-Fires cfg symbol ts now (last_close nought cs) (vwap_from_candles cs)
          (bollinger_bands prices cfg.bollinger_period cfg.bollinger_multiplier) intent
          (ground (arith, h)) in
      record {
        bands = bands;
        two_candles = ground (arith, h);
        line_valid = ground (arith, h);
        bands_found = e;
        fires = rest.1;
        volumes_enough = rest.0;
      }

  sided_of_beyond :
      (side : Side) (price : F) (line : VwapResult F) (bands : Bands F)
      → IsBeyond side price line bands
      → (is_long side || is_short side) ≡ true
  sided_of_beyond Side.long price line bands b = refl
  sided_of_beyond Side.short price line bands b = refl
  sided_of_beyond (Side.other_side s) price line bands b = absurd b

  -- For a symbol with a name and a last close that is positive, an intent of the detector passes the
  -- validation of the risk manager, and its reason is none that the trader takes for a closing.
  pub evaluate_valid :
      (cfg : BreakoutConfig F) (symbol : String) (ts : TickStore F) (now : ℕ)
      (intent : TradeIntent F)
      → is_empty symbol ≡ false
      → fl.le (last_close nought (candles ts cfg.candle_duration)) nought ≡ false
      → evaluate cfg symbol ts now ≡ some intent
      → (validate_intent intent ≡ none) × IsEntryReason intent.signal_reason
  evaluate_valid cfg symbol ts now intent named priced h =
      let s = evaluate-Signals cfg symbol ts now intent h in
      let shape = s.fires.shape in
      (
        (validate_intent_iff intent).1 (record {
          named = ap (λ (t : TradeIntent F). is_empty t.ticker) shape ∙ named;
          sided = sided_of_beyond intent.side _ _ s.bands s.fires.beyond;
          priced = ap (λ (t : TradeIntent F). fl.le t.current_price nought) shape ∙ priced;
          reasoned = ap (λ (t : TradeIntent F). is_empty t.signal_reason) shape;
        }),
        subst⁻¹ (λ (t : TradeIntent F). IsEntryReason t.signal_reason) shape refl,
      )
