-- ===== src/Scout/Candles.antt =====
-- src/analysts/quantitative/tickstore.go: `Candles`, the aggregation of the retained ticks into
-- candles. The buckets are held newest first, where the code appends to a slice and reads its end.
-- The code divides by the duration, which panics on zero, so a duration here is one that is not zero.
pub mod Shape
use navier_stocks.Base.{ℕ, ◌≡◌, Bool, true, false, List, [], ◌∷◌, ◌++◌, if◌then◌else◌}
use navier_stocks.Base.Int.{ℤ, pos, ◌+ℤ◌, ◌/ℤ◌, wrap64, eqb_ℤ}
use navier_stocks.Float.{Float64}
use navier_stocks.Scout.TickStore.{Tick, TickStore, count, ticks_from}

-- `Candle`
pub record Candle (F : Type 0) : Type 0 where
  pub first : F
  pub high : F
  pub low : F
  pub close : F
  pub volume : ℤ

-- `acc`
pub record Bucket (F : Type 0) : Type 0 where
  pub candle : Candle F
  pub id : ℤ

-- A `time.Duration` that can be divided by, in nanoseconds
pub record Duration : Type 0 where
  pub nanos : ℤ
  pub nonzero : eqb_ℤ nanos (pos 0) ≡ false

-- `t.Timestamp.UnixNano() / int64(dur)`
abbrev pub bucket_id : {F : Type 0} → Duration → Tick F → ℤ
bucket_id dur t = t.timestamp /ℤ dur.nanos

module _ {F : Type 0} ⦃fl : Float64 F⦄ where
  abbrev pub open_bucket : Duration → Tick F → Bucket F
  open_bucket dur t = record {
    candle = record {
      first = t.price;
      high = t.price;
      low = t.price;
      close = t.price;
      volume = t.volume;
    };
    id = bucket_id dur t;
  }

  abbrev pub widen : Candle F → Tick F → Candle F
  widen c t = record c {
    high = if fl.lt c.high t.price then t.price else c.high;
    low = if fl.lt t.price c.low then t.price else c.low;
    close = t.price;
    volume = wrap64 (c.volume +ℤ t.volume);
  }

  -- One round of the loop.
  unfoldable pub add_tick : Duration → List (Bucket F) → Tick F → List (Bucket F)
  add_tick dur [] t = open_bucket dur t ∷ []
  add_tick dur (b ∷ bs) t =
      if eqb_ℤ b.id (bucket_id dur t)
      then record b { candle = widen b.candle t } ∷ bs
      else open_bucket dur t ∷ b ∷ bs

  unfoldable pub buckets : Duration → List (Bucket F) → List (Tick F) → List (Bucket F)
  unfolding add_tick
  buckets dur bs [] = bs
  buckets dur bs (t ∷ ticks) = buckets dur (add_tick dur bs t) ticks

  -- The candles in chronological order.
  unfoldable pub in_order : List (Bucket F) → List (Candle F) → List (Candle F)
  in_order [] later = later
  in_order (b ∷ bs) later = in_order bs (b.candle ∷ later)

  -- `(*TickStore).Candles`
  unfoldable pub candles : TickStore F → Duration → List (Candle F)
  unfolding buckets in_order
  candles ts dur = in_order (buckets dur [] (ticks_from ts 0 (count ts))) []
