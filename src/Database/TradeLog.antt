-- ===== src/Database/TradeLog.antt =====
-- src/pkg/database/trade_log.go: `TradeLogStore`, the append-only log of fills.
use navier_stocks.Base.{ℕ, Option, none, some, List, ◌∷◌, String}
use navier_stocks.Base.Int.{ℤ}
use navier_stocks.Models.{Side, TradeExecution}
use navier_stocks.Database.{Stored, driver, done, refused}

-- A row of trade_log; its id and time are the database's own.
pub record Entry (F : Type 0) : Type 0 where
  pub ticker : String
  pub side : Side
  pub quantity : ℤ
  pub price : F
  pub signal_reason : String
  pub status : String
  pub position_id : ℕ

abbrev pub Log : Type 0 → Type 0
Log F = List (Entry F)

-- `(*TradeLogStore).Insert`, newest first.
unfoldable pub insert :
    {F : Type 0} → Option String → TradeExecution F → String → Log F → Stored (Log F)
insert (some message) exec status log = refused (driver message)
insert none exec status log = done (
    record {
      ticker = exec.ticker;
      side = exec.side;
      quantity = exec.quantity;
      price = exec.price;
      signal_reason = exec.signal_reason;
      status = status;
      position_id = exec.position_id;
    }
    ∷ log)
