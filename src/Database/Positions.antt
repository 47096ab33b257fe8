-- ===== src/Database/Positions.antt =====
-- src/pkg/database/positions.go: `PositionStore` over the table of migrations 001 and 003. The rows
-- are held newest first, so in the order of `ORDER BY id DESC`.
pub mod Lifecycle
pub mod Keys
use navier_stocks.Base.{
  ℕ, zero, suc, ◌+◌, ◌≡◌, Bool, true, false, ◌&&◌, ◌||◌, Option, none, some, List, [], ◌∷◌, String,
  ◌==◌, if◌then◌else◌,
}
use navier_stocks.Base.Int.{ℤ, pos, negsuc}
use navier_stocks.Base.Text.{str_eq}
use navier_stocks.Float.{Float64}
use navier_stocks.Models.{Side, Position, PositionStatus, ExitReason, is_long, is_open}
use navier_stocks.Database.{StoreError, Stored, driver, no_rows, done, refused}

-- The table, and the next value of its BIGSERIAL column.
pub record Table (F : Type 0) : Type 0 where
  pub rows : List (Position F)
  pub next_id : ℕ

module _ {F : Type 0} where
  -- Whether a row has the reference: the UNIQUE constraint, and the query of `hasExecution`.
  unfoldable pub has_ref : String → List (Position F) → Bool
  has_ref ref [] = false
  has_ref ref (p ∷ ps) = str_eq p.execution_ref ref || has_ref ref ps

  -- `(*PositionStore).Insert`: the new table, and the generated id that is put into `pos.ID`. A
  -- reference that is taken is a violation of the constraint, which the driver reports. The exit columns, which
  -- the query leaves NULL, stay as the position has them: zero in every position that the program
  -- inserts.
  unfoldable pub insert : Option String → Position F → Table F → Stored (Table F × ℕ)
  insert (some message) p t = refused (driver message)
  insert none p t =
      if has_ref p.execution_ref t.rows
      then refused (driver "duplicate key")
      else done (
        record { rows = record p { id = t.next_id } ∷ t.rows; next_id = suc t.next_id },
        t.next_id,
      )

  abbrev pub open_rows : List (Position F) → List (Position F)
  open_rows [] = []
  open_rows (p ∷ ps) = if is_open p.status then p ∷ open_rows ps else open_rows ps

  -- `(*PositionStore).ListOpen`
  unfoldable pub list_open : Option String → Table F → Stored (List (Position F))
  list_open (some message) t = refused (driver message)
  list_open none t = done (open_rows t.rows)

  -- The WHERE clause of `MarkClosed`.
  abbrev pub is_target : ℕ → Position F → Bool
  is_target id p = p.id == id && is_open p.status

  abbrev pub affected : ℕ → List (Position F) → Bool
  affected id [] = false
  affected id (p ∷ ps) = is_target id p || affected id ps

module _ {F : Type 0} ⦃fl : Float64 F⦄ where
  -- CASE WHEN side = 'LONG' THEN 1 ELSE -1 END
  abbrev pub direction : Side → F
  direction side = if is_long side then fl.of_int (pos 1) else fl.of_int (negsuc 0)

  abbrev pub realized_pnl : F → Position F → F
  realized_pnl exit_price p =
      fl.mul (fl.mul (fl.sub exit_price p.entry_price) (fl.of_int p.quantity)) (direction p.side)

  -- The SET clause of `MarkClosed`, at the database's time.
  abbrev pub close_row : F → ExitReason → ℕ → Position F → Position F
  close_row exit_price reason now p = record p {
    status = PositionStatus.closed;
    closed_at = some now;
    exit_price = exit_price;
    pnl = realized_pnl exit_price p;
    exit_reason = reason;
  }

  abbrev pub close_rows : ℕ → F → ExitReason → ℕ → List (Position F) → List (Position F)
  close_rows id exit_price reason now [] = []
  close_rows id exit_price reason now (p ∷ ps) =
      (if is_target id p then close_row exit_price reason now p else p)
      ∷ close_rows id exit_price reason now ps

  -- `(*PositionStore).MarkClosed`
  unfoldable pub mark_closed : Option String → ℕ → F → ExitReason → ℕ → Table F → Stored (Table F)
  mark_closed (some message) id exit_price reason now t = refused (driver message)
  mark_closed none id exit_price reason now t =
      if affected id t.rows
      then done (record t { rows = close_rows id exit_price reason now t.rows })
      else refused no_rows
