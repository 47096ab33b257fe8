-- ===== src/Scout/TickStore.antt =====
-- src/analysts/quantitative/tickstore.go: the ring buffer of ticks. A store is changed by one writer,
-- so a method returns the new store. A read of the buffer out of range, a panic in Go, would give the
-- zero tick here.
pub mod Slices
pub mod Contents
pub mod Queries
use navier_stocks.Base.{
  ℕ, zero, suc, ◌+◌, ◌-◌, ◌%◌, Bool, true, false, List, [], ◌∷◌, ltb, leb, ◌==◌, if◌then◌else◌,
  length, get_or, set, replicate,
}
use navier_stocks.Base.Int.{ℤ, pos, pos_part, ltb_ℤ, leb_ℤ}
use navier_stocks.Float.{Float64, nought}

-- `Tick`; the timestamp is its UnixNano.
pub record Tick (F : Type 0) : Type 0 where
  pub price : F
  pub volume : ℤ
  pub timestamp : ℤ

-- `TickStore`, without its lock
pub record TickStore (F : Type 0) : Type 0 where
  pub buf : List (Tick F)
  pub size : ℕ
  pub write : ℕ
  pub full : Bool

-- `count`, which `Len` repeats under the lock
unfoldable pub count : {F : Type 0} → TickStore F → ℕ
count ts = if ts.full then ts.size else ts.write

module _ {F : Type 0} ⦃fl : Float64 F⦄ where
  abbrev pub zero_tick : Tick F
  zero_tick = record { price = nought; volume = pos 0; timestamp = pos 0 }

  -- `at`
  unfoldable pub at : TickStore F → ℕ → Tick F
  at ts i =
      if ts.full
      then get_or ts.buf ((ts.write + i) % ts.size) zero_tick
      else get_or ts.buf i zero_tick

  -- The loop `for i := 0; i < n; i++` over `ts.at(from + i)`, with the rounds left.
  unfoldable pub ticks_from : TickStore F → ℕ → ℕ → List (Tick F)
  ticks_from ts from zero = []
  ticks_from ts from (suc n) = at ts from ∷ ticks_from ts (suc from) n

  abbrev pub prices_of : List (Tick F) → List F
  prices_of [] = []
  prices_of (t ∷ ticks) = t.price ∷ prices_of ticks

  abbrev pub volumes_of : List (Tick F) → List ℤ
  volumes_of [] = []
  volumes_of (t ∷ ticks) = t.volume ∷ volumes_of ticks

  -- The ticks that `RecentPrices` and `RecentVolumes` read: the last `n`, or all if there are fewer.
  unfoldable pub recent : TickStore F → ℤ → List (Tick F)
  unfolding ticks_from
  recent ts n =
      if leb_ℤ n (pos 0)
      then []
      else let c = count ts in
        let k = if ltb c (pos_part n) then c else pos_part n in ticks_from ts (c - k) k

  -- `RecentPrices`
  unfoldable pub recent_prices : TickStore F → ℤ → List F
  recent_prices ts n = prices_of (recent ts n)

  -- `RecentVolumes`
  unfoldable pub recent_volumes : TickStore F → ℤ → List ℤ
  recent_volumes ts n = volumes_of (recent ts n)

  -- `NewTickStore`
  unfoldable pub new_tick_store : ℤ → TickStore F
  new_tick_store n =
      let size = if ltb_ℤ n (pos 1) then 1 else pos_part n in
      record { buf = replicate size zero_tick; size = size; write = 0; full = false }

module _ {F : Type 0} where
  -- `Append`
  unfoldable pub append : TickStore F → Tick F → TickStore F
  append ts t =
      if suc ts.write == ts.size
      then record ts { buf = set ts.buf ts.write t; write = 0; full = true }
      else record ts { buf = set ts.buf ts.write t; write = suc ts.write }

  abbrev with_volume : List (Tick F) → ℕ → ℤ → List (Tick F)
  with_volume [] i v = []
  with_volume (t ∷ ticks) zero v = record t { volume = v } ∷ ticks
  with_volume (t ∷ ticks) (suc i) v = t ∷ with_volume ticks i v

  -- `UpdateLatestVolume`
  unfoldable pub update_latest_volume : TickStore F → ℤ → TickStore F
  update_latest_volume ts vol =
      if count ts == 0
      then ts
      else let i = if ts.write == 0 then ts.size - 1 else ts.write - 1 in
        record ts { buf = with_volume ts.buf i vol }
