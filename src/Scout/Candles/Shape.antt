-- ===== src/Scout/Candles/Shape.antt =====
-- src/analysts/quantitative/tickstore.go: what the candles say of the ticks.
use navier_stocks.Base.{
  ℕ, ◌+◌, ◌<◌, ◌^◌, ◌≡◌, inl, inr, true, List, [], ◌∷◌, arith, Bool-cases, All,
}
use navier_stocks.Base.Int.{ℤ, pos_part, neg_part, ◌+ℤ◌, eqb_ℤ, wrap64}
use navier_stocks.Float.{Float64, IsNumber, IsOrdered}
use navier_stocks.Scout.TickStore.{Tick, TickStore, count, ticks_from}
use navier_stocks.Scout.TickStore.Contents.{IsRing, contents}
use navier_stocks.Scout.TickStore.Queries.{ticks_from-drop}
use navier_stocks.Scout.Candles.{
  Candle, Bucket, Duration, bucket_id, open_bucket, widen, add_tick, buckets, in_order, candles,
}

abbrev pub IsVolume : ℤ → Type 0
IsVolume v = neg_part v ≡ 0

add-IsVolume :
    (v w : ℤ)
    → IsVolume v
    → IsVolume w
    → pos_part v + pos_part w < 2 ^ 63
    → (pos_part (wrap64 (v +ℤ w)) ≡ pos_part v + pos_part w) × IsVolume (wrap64 (v +ℤ w))
unfolding ◌+ℤ◌ wrap64
add-IsVolume v w h k l = ground arith

module _ {F : Type 0} ⦃fl : Float64 F⦄ where
  -- The low and the high enclose the first and the last price.
  pub record IsCandle (c : Candle F) : Type 0 where
    pub low_first : fl.le c.low c.first ≡ true
    pub first_high : fl.le c.first c.high ≡ true
    pub low_close : fl.le c.low c.close ≡ true
    pub close_high : fl.le c.close c.high ≡ true

  abbrev IsBucket : Bucket F → Type 0
  IsBucket b = IsCandle b.candle

  widen-IsCandle :
      IsOrdered F
      → (c : Candle F) (t : Tick F) → IsNumber t.price
      → IsCandle c
      → IsCandle (widen c t)
  widen-IsCandle laws c t n v = ground (
    arith,
    n,
    v.low_first,
    v.first_high,
    v.low_close,
    v.close_high,
    laws.number_of_le c.low c.first v.low_first,
    laws.number_of_le c.first c.high v.first_high,
    laws.lt-eq-not-le c.high t.price,
    laws.lt-eq-not-le t.price c.low,
    laws.le_total t.price c.high,
    laws.le_total t.price c.low,
    laws.le_trans c.low c.first c.high v.low_first v.first_high,
    laws.le_trans c.first c.high t.price,
    laws.le_trans c.low c.high t.price,
    laws.le_trans t.price c.low c.first,
    laws.le_trans t.price c.low c.high,
  )

  open_bucket-IsBucket :
      (dur : Duration) (t : Tick F) → IsNumber t.price → IsBucket (open_bucket dur t)
  open_bucket-IsBucket dur t n = record {
    low_first = n;
    first_high = n;
    low_close = n;
    close_high = n;
  }

  add_tick-IsBucket :
      IsOrdered F
      → (dur : Duration) (bs : List (Bucket F)) (t : Tick F) → IsNumber t.price
      → All IsBucket bs
      → All IsBucket (add_tick dur bs t)
  unfolding add_tick
  add_tick-IsBucket laws dur [] t n a = (open_bucket-IsBucket dur t n, tt)
  add_tick-IsBucket laws dur (b ∷ bs) t n a = elim (Bool-cases (eqb_ℤ b.id (bucket_id dur t))) [
    | inl same ↦ rw same (widen-IsCandle laws b.candle t n a.0, a.1)
    | inr other ↦ rw other (open_bucket-IsBucket dur t n, a)
  ]

  buckets-IsBucket :
      IsOrdered F
      → (dur : Duration) (bs : List (Bucket F)) (ticks : List (Tick F))
      → All (λ (t : Tick F). IsNumber t.price) ticks
      → All IsBucket bs
      → All IsBucket (buckets dur bs ticks)
  unfolding buckets
  buckets-IsBucket laws dur bs [] n a = a
  buckets-IsBucket laws dur bs (t ∷ ticks) n a =
      buckets-IsBucket laws dur (add_tick dur bs t) ticks n.1
        (add_tick-IsBucket laws dur bs t n.0 a)

  in_order-All :
      (P : Candle F → Type 0) (bs : List (Bucket F)) (later : List (Candle F))
      → All (λ (b : Bucket F). P b.candle) bs
      → All P later
      → All P (in_order bs later)
  unfolding in_order
  in_order-All P [] later a l = l
  in_order-All P (b ∷ bs) later a l = in_order-All P bs (b.candle ∷ later) a.1 (a.0, l)

  ticks_all : (ts : TickStore F) → IsRing ts → ticks_from ts 0 (count ts) ≡ contents ts
  ticks_all ts v = ticks_from-drop (count ts) 0 ts v (omega arith)

  -- If no retained price is NaN, every candle encloses its first and its last price between its low
  -- and its high.
  pub candles-IsCandle :
      IsOrdered F
      → (ts : TickStore F) (dur : Duration) → IsRing ts
      → All (λ (t : Tick F). IsNumber t.price) (contents ts)
      → All IsCandle (candles ts dur)
  unfolding candles
  candles-IsCandle laws ts dur v n =
      in_order-All IsCandle (buckets dur [] (ticks_from ts 0 (count ts))) []
        (buckets-IsBucket laws dur [] (ticks_from ts 0 (count ts)) (rw (ticks_all ts v) n) tt) tt

  -- The sum of the volumes of candles, and of ticks.
  abbrev pub candle_volume : List (Candle F) → ℕ
  candle_volume [] = 0
  candle_volume (c ∷ cs) = pos_part c.volume + candle_volume cs

  abbrev pub tick_volume : List (Tick F) → ℕ
  tick_volume [] = 0
  tick_volume (t ∷ ticks) = pos_part t.volume + tick_volume ticks

  abbrev bucket_volume : List (Bucket F) → ℕ
  bucket_volume [] = 0
  bucket_volume (b ∷ bs) = pos_part b.candle.volume + bucket_volume bs

module _ {F : Type 0} ⦃fl : Float64 F⦄ where
  add_tick-volume :
      (dur : Duration) (bs : List (Bucket F)) (t : Tick F)
      → All (λ (b : Bucket F). IsVolume b.candle.volume) bs
      → IsVolume t.volume
      → bucket_volume bs + pos_part t.volume < 2 ^ 63
      → (bucket_volume (add_tick dur bs t) ≡ bucket_volume bs + pos_part t.volume)
        × All (λ (b : Bucket F). IsVolume b.candle.volume) (add_tick dur bs t)
  unfolding add_tick
  add_tick-volume dur [] t a v k = (omega arith, (v, tt))
  add_tick-volume dur (b ∷ bs) t a v k = elim (Bool-cases (eqb_ℤ b.id (bucket_id dur t))) [
    | inl same ↦
        let sum = add-IsVolume b.candle.volume t.volume a.0 v (omega arith) in
        rw same (omega (arith, sum.0), (sum.1, a.1))
    | inr other ↦ rw other (omega arith, (v, a))
  ]

  buckets-volume :
      (dur : Duration) (bs : List (Bucket F)) (ticks : List (Tick F))
      → All (λ (b : Bucket F). IsVolume b.candle.volume) bs
      → All (λ (t : Tick F). IsVolume t.volume) ticks
      → bucket_volume bs + tick_volume ticks < 2 ^ 63
      → bucket_volume (buckets dur bs ticks) ≡ bucket_volume bs + tick_volume ticks
  unfolding buckets
  buckets-volume dur bs [] a v k = omega arith
  buckets-volume dur bs (t ∷ ticks) a v k =
      let one = add_tick-volume dur bs t a v.0 (omega arith) in
      omega (
        arith,
        buckets-volume dur (add_tick dur bs t) ticks one.1 v.1 (omega (arith, one.0)),
        one.0,
      )

  in_order-volume :
      (bs : List (Bucket F)) (later : List (Candle F))
      → candle_volume (in_order bs later) ≡ bucket_volume bs + candle_volume later
  unfolding in_order
  in_order-volume [] later = omega arith
  in_order-volume (b ∷ bs) later = omega (arith, in_order-volume bs (b.candle ∷ later))

  -- If no retained tick has a negative volume and their volumes sum to less than 2^63, the volumes
  -- of the candles of a duration that is not zero sum to the volumes of the retained ticks.
  pub candles-volume :
      (ts : TickStore F) (dur : Duration)
      → IsRing ts
      → All (λ (t : Tick F). IsVolume t.volume) (contents ts)
      → tick_volume (contents ts) < 2 ^ 63
      → candle_volume (candles ts dur) ≡ tick_volume (contents ts)
  unfolding candles
  candles-volume ts dur v a k =
      rw (in_order-volume (buckets dur [] (ticks_from ts 0 (count ts))) [], ticks_all ts v)
        (omega (arith, buckets-volume dur [] (contents ts) tt a (omega (arith, k))))
