-- ===== src/Risk.antt =====
-- src/analysts/riskmanager: the gatekeeper between trade intents and executions. The children model
-- its files: `Exposure` (exposure.go), `Gates` (bias.go, timeguard.go, sentiment.go), `Allocator`
-- (allocator.go), `Executor` (executor.go), `Agent` (agent.go) and `SquareOff` (squareoff.go).
-- Here are the errors that they return.
pub mod Exposure
pub mod Gates
pub mod Allocator
pub mod Executor
pub mod Agent
pub mod SquareOff
use navier_stocks.Base.{String}

-- The sentinel errors of the package, and errors of what it calls, with their text.
pub data Refusal : Type 0 where
  sector_limit total_limit bias_limit : Refusal
  opening_buffer closing_cutoff : Refusal
  sentiment_low_confidence sentiment_missing : Refusal
  insufficient_capital : Refusal
  publish_failed store_failed : String → Refusal

-- What a store answers to a query for one row: an error, no row, or the row.
pub data Fetched (A : Type 0) : Type 0 where
  fetch_failed : String → Fetched A
  absent : Fetched A
  found : A → Fetched A
