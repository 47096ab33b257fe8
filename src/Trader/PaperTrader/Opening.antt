-- ===== src/Trader/PaperTrader/Opening.antt =====
-- src/analysts/trader/papertrader.go: what an execution does to the two tables.
use navier_stocks.Base.{
  ℕ, suc, ◌≡◌, refl, ◌∙◌, Bool, true, false, Option, none, some, ◌∷◌, String, arith,
}
use navier_stocks.Base.Text.{str_eq_refl, decimal_text}
use navier_stocks.Float.{Float64}
use navier_stocks.Models.{TradeExecution, validate_position}
use navier_stocks.Database.{driver}
use navier_stocks.Database.Positions.{Table, has_ref}
use navier_stocks.Database.Positions
use navier_stocks.Database.TradeLog.{Log, Entry}
use navier_stocks.Database.TradeLog
use navier_stocks.Trader.{ExecuteError, Fill}
use navier_stocks.Trader.PaperTrader.{
  Ledger, Faults, is_closing, has_execution, pos_from_exec, execute, log_fill, fill_at,
  status_simulated,
}

-- No call fails.
abbrev pub no_faults : Faults
no_faults = record { on_query = none; on_position = none; on_log = none }

module _ {F : Type 0} where
  abbrev pub is_filled : Fill F → Bool
  is_filled (Fill.filled result) = true
  is_filled (Fill.rejected error) = false

  -- The row of the log for an order that was filled.
  abbrev pub entry_of : TradeExecution F → ℕ → Entry F
  entry_of order position_id = record {
    ticker = order.ticker;
    side = order.side;
    quantity = order.quantity;
    price = order.price;
    signal_reason = order.signal_reason;
    status = status_simulated;
    position_id = position_id;
  }

  log_fill_taken :
      (millis : ℕ) (order : TradeExecution F) (l : Ledger F)
      → log_fill none millis order l ≡ (
        fill_at order (decimal_text millis),
        record l { log = entry_of order order.position_id ∷ l.log },
      )
  unfolding TradeLog.insert
  log_fill_taken millis order l = refl

  log_fill_lost :
      (message : String) (millis : ℕ) (order : TradeExecution F) (l : Ledger F)
      → log_fill (some message) millis order l
        ≡ (Fill.rejected (ExecuteError.log_failed (driver message)), l)
  unfolding TradeLog.insert
  log_fill_lost message millis order l = refl

module _ {F : Type 0} ⦃fl : Float64 F⦄ where
  execute-eq-log :
      (faults : Faults) (millis : ℕ) (order : TradeExecution F) (l : Ledger F)
      → is_closing order ≡ true
      → execute faults millis order l ≡ log_fill faults.on_log millis order l
  unfolding execute
  execute-eq-log faults millis order l h = ground arith

  -- What a fill of a closing order does to the ledger, by the fault of the log.
  abbrev pub Logged : Option String → TradeExecution F → Ledger F → Fill F × Ledger F → Type 0
  Logged none order l r =
      (is_filled r.0 ≡ true) × (r.1.log ≡ entry_of order order.position_id ∷ l.log)
  Logged (some message) order l r = (is_filled r.0 ≡ false) × (r.1.log ≡ l.log)

  log_fill-Logged :
      (fault : Option String) (millis : ℕ) (order : TradeExecution F) (l : Ledger F)
      → ((log_fill fault millis order l).1.table ≡ l.table)
        × Logged fault order l (log_fill fault millis order l)
  log_fill-Logged none millis order l = rw (log_fill_taken millis order l) (refl, (refl, refl))
  log_fill-Logged (some message) millis order l =
      rw (log_fill_lost message millis order l) (refl, (refl, refl))

  -- A closing execution leaves the positions as they are, whatever fails. It is filled just if the
  -- log takes it, and then the log has one row more, which names the position that is closed.
  pub execute_closing :
      (faults : Faults) (millis : ℕ) (order : TradeExecution F) (l : Ledger F)
      → is_closing order ≡ true
      → ((execute faults millis order l).1.table ≡ l.table)
        × Logged faults.on_log order l (execute faults millis order l)
  execute_closing faults millis order l h =
      rw (execute-eq-log faults millis order l h) (log_fill-Logged faults.on_log millis order l)

  -- The ledger once the position of an order was inserted.
  abbrev pub with_position : TradeExecution F → Ledger F → Ledger F
  with_position order l = record l {
    table = record {
      rows = record (pos_from_exec order) { id = l.table.next_id } ∷ l.table.rows;
      next_id = suc l.table.next_id;
    };
  }

  execute_opening :
      (log_fault : Option String) (millis : ℕ) (order : TradeExecution F) (l : Ledger F)
      → is_closing order ≡ false
      → has_ref order.execution_ref l.table.rows ≡ false
      → validate_position (pos_from_exec order) ≡ none
      → execute (record no_faults { on_log = log_fault }) millis order l
        ≡ log_fill log_fault millis
            (record order { position_id = l.table.next_id })
            (with_position order l)
  unfolding execute has_execution Positions.insert pos_from_exec
  execute_opening log_fault millis order l c f v = rw (c, f, v, f) refl

  has_ref-with_position :
      (order : TradeExecution F) (l : Ledger F)
      → has_ref order.execution_ref (with_position order l).table.rows ≡ true
  unfolding has_ref pos_from_exec
  has_ref-with_position order l = rw (str_eq_refl order.execution_ref) refl

  execute_duplicate :
      (faults : Faults) (millis : ℕ) (order : TradeExecution F) (l : Ledger F)
      → is_closing order ≡ false
      → has_ref order.execution_ref l.table.rows ≡ true
      → faults.on_query ≡ none
      → execute faults millis order l ≡ (fill_at order "dup", l)
  unfolding execute has_execution
  execute_duplicate faults millis order l c f q = rw (c, q, f) refl

  -- The ledger once an opening order was filled and logged.
  abbrev pub opened_by : TradeExecution F → Ledger F → Ledger F
  opened_by order l = record (with_position order l) {
    log = entry_of order l.table.next_id ∷ l.log;
  }

  -- An opening execution whose reference is new and whose position is valid, while no call fails, is
  -- filled at its own price and quantity; the table gets one open row under the next id and the log
  -- one row that names it. A second delivery of the execution is filled as well, and changes nothing.
  pub execute_opens :
      (millis later : ℕ) (order : TradeExecution F) (l : Ledger F)
      → is_closing order ≡ false
      → has_ref order.execution_ref l.table.rows ≡ false
      → validate_position (pos_from_exec order) ≡ none
      → (execute no_faults millis order l
          ≡ (fill_at order (decimal_text millis), opened_by order l))
        × (execute no_faults later order (opened_by order l)
            ≡ (fill_at order "dup", opened_by order l))
  execute_opens millis later order l c f v = (
    execute_opening none millis order l c f v
        ∙ log_fill_taken millis (record order { position_id = l.table.next_id })
            (with_position order l),
    execute_duplicate no_faults later order (opened_by order l) c (has_ref-with_position order l)
        refl,
  )

  -- If an opening execution has a new reference and a valid position, and only the log refuses it, the gateway is told that it failed, though the
  -- position is open; the redelivery is then filled as a duplicate, and the log never has its row.
  pub redelivery_skips_log :
      (message : String) (millis later : ℕ) (order : TradeExecution F) (l : Ledger F)
      → is_closing order ≡ false
      → has_ref order.execution_ref l.table.rows ≡ false
      → validate_position (pos_from_exec order) ≡ none
      → (execute (record no_faults { on_log = some message }) millis order l
          ≡ (Fill.rejected (ExecuteError.log_failed (driver message)), with_position order l))
        × (execute no_faults later order (with_position order l)
            ≡ (fill_at order "dup", with_position order l))
  redelivery_skips_log message millis later order l c f v = (
    execute_opening (some message) millis order l c f v
        ∙ log_fill_lost message millis (record order { position_id = l.table.next_id })
            (with_position order l),
    execute_duplicate no_faults later order (with_position order l) c
        (has_ref-with_position order l) refl,
  )
