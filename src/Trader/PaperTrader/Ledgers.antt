-- ===== src/Trader/PaperTrader/Ledgers.antt =====
-- src/analysts/trader/papertrader.go: the invariant of the ledger, and the boundaries of a new
-- position.
use navier_stocks.Base.{
  ℕ, ◌≡◌, refl, ap, ◌∙◌, inl, inr, false, Option, none, some, List, String, if◌then◌else◌,
  Bool-cases, Option-cases, All,
}
use navier_stocks.Float.{Float64, nought}
use navier_stocks.Base.Text.{is_empty}
use navier_stocks.Models.{TradeExecution, Position, validate_position, validate_execution}
use navier_stocks.Models.Laws.{validate_execution_iff, validate_position_iff}
use navier_stocks.Database.{Stored, done, refused, driver}
use navier_stocks.Database.Positions.{Table, has_ref}
use navier_stocks.Database.Positions
use navier_stocks.Database.Positions.Lifecycle.{IsTable, insert-IsTable, insert-eq-done}
use navier_stocks.Database.TradeLog.{Entry}
use navier_stocks.Database.TradeLog
use navier_stocks.Trader.PaperTrader.{
  Ledger, Faults, is_closing, has_execution, pos_from_exec, execute, after_insert, open_position,
  after_log, status_simulated,
}

-- A position has a sector.
sector_default :
    (sector : String) → is_empty (if is_empty sector then "GENERAL" else sector) ≡ false
sector_default sector = elim (Bool-cases (is_empty sector)) [
  | inl e ↦ ap (λ b. is_empty (if b then "GENERAL" else sector)) e
  | inr e ↦ ap (λ b. is_empty (if b then "GENERAL" else sector)) e ∙ e
]

module _ {F : Type 0} ⦃fl : Float64 F⦄ where
  abbrev IsValidRow : Position F → Type 0
  IsValidRow p = validate_position p ≡ none

  -- The keys of the table, and that every row passes `Validate`.
  pub record IsLedger (l : Ledger F) : Type 0 where
    pub keyed : IsTable l.table
    pub valid : All IsValidRow l.table.rows

  IsLedger-after_log :
      (millis : ℕ) (order : TradeExecution F) (l : Ledger F) (r : Stored (List (Entry F)))
      → IsLedger l
      → IsLedger (after_log millis order l r).1
  IsLedger-after_log millis order l (done log) v = record { keyed = v.keyed; valid = v.valid }
  IsLedger-after_log millis order l (refused error) v = v

  -- The id is no matter to `Validate`.
  valid_with_id :
      (id : ℕ) (p : Position F)
      → validate_position p ≡ none
      → validate_position (record p { id = id }) ≡ none
  unfolding validate_position
  valid_with_id id p v = v

  IsLedger-inserted :
      (order : TradeExecution F) (l : Ledger F) (t : Table F) (id : ℕ)
      → IsLedger l
      → validate_position (pos_from_exec order) ≡ none
      → Positions.insert none (pos_from_exec order) l.table ≡ done (t, id)
      → IsLedger (record l { table = t })
  IsLedger-inserted order l t id v ok e =
      let (fresh, same, k) = insert-eq-done (pos_from_exec order) l.table t id e in
      record {
        keyed = (insert-IsTable (pos_from_exec order) l.table t id v.keyed e).0;
        valid = rw same (valid_with_id l.table.next_id (pos_from_exec order) ok, v.valid);
      }

  IsLedger-after_insert :
      (log_fault : Option String) (millis : ℕ) (order : TradeExecution F) (l : Ledger F)
      → IsLedger l
      → validate_position (pos_from_exec order) ≡ none
      → (r : Stored (Table F × ℕ)) → Positions.insert none (pos_from_exec order) l.table ≡ r
      → IsLedger (after_insert log_fault millis order l r).1
  IsLedger-after_insert log_fault millis order l v ok (refused error) e = v
  IsLedger-after_insert log_fault millis order l v ok (done (t, id)) e =
      let linked = record order { position_id = id } in
      IsLedger-after_log millis linked (record l { table = t })
        (TradeLog.insert log_fault linked status_simulated l.log)
        (IsLedger-inserted order l t id v ok e)

  insert-eq-refused :
      (message : String) (p : Position F) (t : Table F)
      → Positions.insert (some message) p t ≡ refused (driver message)
  unfolding Positions.insert
  insert-eq-refused message p t = refl

  IsLedger-open_position :
      (faults : Faults) (millis : ℕ) (order : TradeExecution F) (l : Ledger F)
      → IsLedger l
      → (checked : Option String) → validate_position (pos_from_exec order) ≡ checked
      → IsLedger (open_position faults millis order l checked).1
  IsLedger-open_position faults millis order l v (some message) ok = v
  IsLedger-open_position faults millis order l v none ok = elim (Option-cases faults.on_position) [
    | inl quiet ↦ rw quiet (
        IsLedger-after_insert faults.on_log millis order l v ok
          (Positions.insert none (pos_from_exec order) l.table) refl)
    | inr (message, e) ↦ rw (e, insert-eq-refused message (pos_from_exec order) l.table) v
  ]

  -- A valid execution makes a valid position, if its boundaries or the defaults for them are positive.
  pub pos_from_exec_valid :
      (order : TradeExecution F)
      → validate_execution order ≡ none
      → fl.le (pos_from_exec order).stop_loss nought ≡ false
      → fl.le (pos_from_exec order).take_profit nought ≡ false
      → validate_position (pos_from_exec order) ≡ none
  unfolding pos_from_exec
  pos_from_exec_valid order v stop target =
      let t = (validate_execution_iff order).0 v in
      (validate_position_iff (pos_from_exec order)).1 (record {
        named = t.named;
        sided = t.sided;
        sized = t.sized;
        priced = t.priced;
        stopped = stop;
        targeted = target;
        sectored = sector_default order.sector;
        referenced = t.referenced;
        known_status = refl;
      })

  -- Whatever the driver fails, an execution keeps the keys of the table, and leaves no row in it that
  -- `Validate` refuses.
  pub execute-IsLedger :
      (faults : Faults) (millis : ℕ) (order : TradeExecution F) (l : Ledger F)
      → IsLedger l
      → IsLedger (execute faults millis order l).1
  unfolding execute
  execute-IsLedger faults millis order l v =
      let opened =
        IsLedger-open_position faults millis order l v (validate_position (pos_from_exec order))
          refl in
      let logged =
        IsLedger-after_log millis order l
          (TradeLog.insert faults.on_log order status_simulated l.log) v in
      elim (Bool-cases (is_closing order)) [
        | inl closing ↦ rw closing logged
        | inr opening ↦
            elim (Bool-cases (has_execution faults.on_query order.execution_ref l.table)) [
              | inl known ↦ rw (opening, known) v
              | inr new ↦ rw (opening, new) opened
            ]
      ]
