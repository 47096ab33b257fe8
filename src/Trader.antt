-- ===== src/Trader.antt =====
-- src/analysts/trader: the Trader Gateway, which turns executions into positions and positions into
-- closing executions. The children model its files: `PaperTrader` (papertrader.go), `Gateway`
-- (agent.go) and `ExitMonitor` (exitmonitor.go). GrowwTrader, which comments name, is not in the
-- repository. Here is what a backend answers.
pub mod PaperTrader
pub mod Gateway
pub mod ExitMonitor
use navier_stocks.Base.{String}
use navier_stocks.Base.Int.{ℤ}
use navier_stocks.Database.{StoreError}

-- `OrderResult`
pub record OrderResult (F : Type 0) : Type 0 where
  pub broker_order_id : String
  pub executed_price : F
  pub executed_qty : ℤ

-- The errors of `Execute`, each with what it wraps.
pub data ExecuteError : Type 0 where
  invalid : String → ExecuteError
  position_failed : StoreError → ExecuteError
  log_failed : StoreError → ExecuteError

-- The two results of `Execute`.
pub data Fill (F : Type 0) : Type 0 where
  filled : OrderResult F → Fill F
  rejected : ExecuteError → Fill F
