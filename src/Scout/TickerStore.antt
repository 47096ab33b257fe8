-- ===== src/Scout/TickerStore.antt =====
-- src/analysts/quantitative/tickstore.go: `TickerStore`, one ring buffer for each tracked symbol. The
-- methods hold its lock, so each is one step; a caller changes a buffer through the pointer that
-- `Store` gave it, which is `put` here.
pub mod Tracking
use navier_stocks.Base.{
  ℕ, Bool, true, false, Option, none, some, List, [], String, leb, length, if◌then◌else◌,
}
use navier_stocks.Base.Int.{ℤ, pos, pos_part, ltb_ℤ}
use navier_stocks.Base.Dict.{Dict, lookup, insert, keys}
use navier_stocks.Float.{Float64}
use navier_stocks.Scout.TickStore.{Tick, TickStore, new_tick_store, append}

-- `TickerStore`, without its lock
pub record TickerStore (F : Type 0) : Type 0 where
  pub stores : Dict (TickStore F)
  pub max : ℕ
  pub buf_cap : ℤ

-- `DefaultMaxTickers`
abbrev pub default_max_tickers : ℕ
default_max_tickers = 25

module _ {F : Type 0} where
  -- `NewTickerStore`
  unfoldable pub new_ticker_store : ℤ → ℤ → TickerStore F
  new_ticker_store max buf_cap = record {
    stores = [];
    max = if ltb_ℤ max (pos 1) then default_max_tickers else pos_part max;
    buf_cap = if ltb_ℤ buf_cap (pos 1) then pos 256 else buf_cap;
  }

  -- `(*TickerStore).Get`
  unfoldable pub get : TickerStore F → String → Option (TickStore F)
  get ts symbol = lookup symbol ts.stores

  -- `(*TickerStore).Symbols`
  unfoldable pub symbols : TickerStore F → List String
  symbols ts = keys ts.stores

  -- `(*TickerStore).Len`
  unfoldable pub len : TickerStore F → ℕ
  len ts = length ts.stores

  -- What a caller's change of the buffer of a symbol does to the map.
  unfoldable pub put : TickerStore F → String → TickStore F → TickerStore F
  put ts symbol s = record ts { stores = insert symbol s ts.stores }

module _ {F : Type 0} ⦃fl : Float64 F⦄ where
  -- `store` with what the map holds for the symbol.
  abbrev found :
      TickerStore F → String → Option (TickStore F) → Option (TickStore F) × TickerStore F
  found ts symbol (some s) = (some s, ts)
  found ts symbol none = if leb ts.max (length ts.stores) then (none, ts) else (
    some (new_tick_store ts.buf_cap),
    record ts { stores = insert symbol (new_tick_store ts.buf_cap) ts.stores },
  )

  -- `(*TickerStore).Store`: the buffer, or `none` for the nil of a store that is full, and the new map.
  unfoldable pub store : TickerStore F → String → Option (TickStore F) × TickerStore F
  store ts symbol = found ts symbol (lookup symbol ts.stores)
