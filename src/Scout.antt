-- ===== src/Scout.antt =====
-- src/analysts/quantitative: the scout that turns market ticks into trade intents. `TickStore` is
-- the ring buffer, `TickerStore` the map of ring buffers and `Candles` the aggregation into candles,
-- all of tickstore.go; `Indicators` is the package indicators, and `Breakout` is breakout.go.
pub mod Universe
pub mod Feed
pub mod TickStore
pub mod TickerStore
pub mod Candles
pub mod Indicators
pub mod Breakout
