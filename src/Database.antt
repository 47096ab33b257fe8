-- ===== src/Database.antt =====
-- src/pkg/database: the tables that the agents share, as the SQL of the stores reads and writes them.
-- PostgreSQL and its driver are not modelled: each call takes the driver's error, or `none`.
pub mod Positions
pub mod Scores
pub mod TradeLog
use navier_stocks.Base.{String}

-- An error of a store: one of the driver, wrapped, or sql.ErrNoRows.
pub data StoreError : Type 0 where
  driver : String → StoreError
  no_rows : StoreError

pub data Stored (A : Type 0) : Type 0 where
  done : A → Stored A
  refused : StoreError → Stored A
