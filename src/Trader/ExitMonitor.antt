-- ===== src/Trader/ExitMonitor.antt =====
-- src/analysts/trader/exitmonitor.go: the exit monitor, which closes positions whose stop-loss or
-- take-profit a price has crossed. Its cache and its in-flight marks are guarded by one lock: each
-- stretch under the lock is one definition, and `evaluate` puts them together as the code does when
-- nothing else runs between them. The position store is the table of Database.Positions.
pub mod Marks
pub mod Hits
pub mod Failures
pub mod Recovery
pub mod Exits
pub mod Ticks
use navier_stocks.Base.{
  ℕ, Bool, true, false, not, ◌&&◌, ◌||◌, Option, none, some, List, [], ◌∷◌, ◌++◌, String, leb, ◌==◌,
  if◌then◌else◌,
}
use navier_stocks.Base.Text.{is_empty, size, from_byte, concat, reference, decimal_text}
use navier_stocks.Base.Dict.{Dict, lookup_or, insert}
use navier_stocks.Float.{Float64, nought}
use navier_stocks.Models.{
  Side, Position, PriceTick, TradeExecution, ExitReason, is_long, is_short, reason_stop_loss,
  reason_take_profit,
}
use navier_stocks.Clock.{is_opening_buffer, is_closing_cutoff}
use navier_stocks.Database.{Stored, StoreError, done, refused}
use navier_stocks.Database.Positions.{Table, list_open, mark_closed}
use navier_stocks.Risk.Executor.{Link, Sent, execute_subject}
use navier_stocks.Risk.SquareOff.{opposite}

-- `ExitMonitor`: the open positions of each ticker, and the ids that are being closed.
pub record Monitor (F : Type 0) : Type 0 where
  pub cache : Dict (List (Position F))
  pub in_flight : List ℕ

-- The monitor, the table of the store, and what was published, newest first.
pub record World (F : Type 0) : Type 0 where
  pub monitor : Monitor F
  pub table : Table F
  pub sent : List (Sent F)

-- A position to close, and why.
abbrev pub Target : Type 0 → Type 0
Target F = Position F × ExitReason

abbrev pub has_id : ℕ → List ℕ → Bool
has_id id [] = false
has_id id (i ∷ ids) = i == id || has_id id ids

abbrev pub remove_id : ℕ → List ℕ → List ℕ
remove_id id [] = []
remove_id id (i ∷ ids) = if i == id then remove_id id ids else i ∷ remove_id id ids

module _ {F : Type 0} where
  -- `NewExitMonitor`
  unfoldable pub new_monitor : Monitor F
  new_monitor = record { cache = []; in_flight = [] }

  -- The loop of `Refresh`, which appends each row to those of its ticker.
  unfoldable pub group : Dict (List (Position F)) → List (Position F) → Dict (List (Position F))
  group next [] = next
  group next (p ∷ ps) = group (insert p.ticker (lookup_or p.ticker next [] ++ p ∷ []) next) ps

  abbrev refreshed : Monitor F → Stored (List (Position F)) → Option StoreError × Monitor F
  refreshed m (refused error) = (some error, m)
  refreshed m (done rows) = (none, record m { cache = group [] rows })

  -- `(*ExitMonitor).Refresh`
  unfoldable pub refresh : Option String → Table F → Monitor F → Option StoreError × Monitor F
  unfolding group
  refresh fault t m = refreshed m (list_open fault t)

  -- `(*ExitMonitor).release`
  unfoldable pub release : ℕ → Monitor F → Monitor F
  release id m = record m { in_flight = remove_id id m.in_flight }

  -- The loop of `dropFromCache`.
  abbrev pub other_ids : ℕ → List (Position F) → List (Position F)
  other_ids id [] = []
  other_ids id (p ∷ ps) = if p.id == id then other_ids id ps else p ∷ other_ids id ps

  -- `(*ExitMonitor).dropFromCache`
  unfoldable pub drop_from_cache : ℕ → String → Monitor F → Monitor F
  drop_from_cache id ticker m = record {
    cache = insert ticker (other_ids id (lookup_or ticker m.cache [])) m.cache;
    in_flight = remove_id id m.in_flight;
  }

-- `tickerOf`
unfoldable pub ticker_of : String → String
ticker_of subject =
    if leb (size subject) (size "signal.price.")
    then ""
    else from_byte subject (size "signal.price.")

module _ {F : Type 0} ⦃fl : Float64 F⦄ where
  -- `crossed`
  unfoldable pub crossed : Position F → F → Option ExitReason
  crossed p price =
      if is_long p.side
      then (if fl.lt nought p.stop_loss && fl.le price p.stop_loss
          then some reason_stop_loss
          else if fl.lt nought p.take_profit && fl.le p.take_profit price
          then some reason_take_profit
          else none)
      else if is_short p.side
      then (if fl.lt nought p.stop_loss && fl.le p.stop_loss price
          then some reason_stop_loss
          else if fl.lt nought p.take_profit && fl.le price p.take_profit
          then some reason_take_profit
          else none)
      else none

  -- One round of the loop of `evaluate` under the lock: the target, if any, and the marks.
  abbrev pick : Position F → Option ExitReason → List (Target F) × List ℕ → List (Target F) × List ℕ
  pick p none rest = rest
  pick p (some reason) rest = ((p, reason) ∷ rest.0, rest.1)

  abbrev marks_after : Position F → Option ExitReason → List ℕ → List ℕ
  marks_after p none marks = marks
  marks_after p (some reason) marks = p.id ∷ marks

  -- The loop: the targets in their order, and the marks at its end.
  unfoldable pub select : F → List (Position F) → List ℕ → List (Target F) × List ℕ
  unfolding crossed
  select price [] marks = ([], marks)
  select price (p ∷ ps) marks =
      let hit = if has_id p.id marks then none else crossed p price in
      pick p hit (select price ps (marks_after p hit marks))

  -- The closing order of `close`.
  unfoldable pub exit_order : Position F → ExitReason → F → ℕ → TradeExecution F
  exit_order p reason price nanos = record {
    ticker = p.ticker;
    side = opposite p.side;
    quantity = p.quantity;
    price = price;
    stop_loss = nought;
    take_profit = nought;
    sector = p.sector;
    signal_reason = reason;
    execution_ref = reference "exit-" (decimal_text p.id) (decimal_text nanos);
    position_id = p.id;
  }

  -- The end of `close`: with or without an error of `MarkClosed`, the position leaves the cache.
  abbrev after_mark : Position F → World F → Stored (Table F) → World F
  after_mark p w (refused error) = record w { monitor = drop_from_cache p.id p.ticker w.monitor }
  after_mark p w (done t) = record w {
    monitor = drop_from_cache p.id p.ticker w.monitor;
    table = t;
  }

  abbrev after_publish :
      Option String → ℕ → Target F → F → TradeExecution F → World F → Option String → World F
  after_publish fault nanos (p, reason) price order w (some error) = record w {
    monitor = release p.id w.monitor;
  }
  after_publish fault nanos (p, reason) price order w none =
      let w' = record w { sent = (execute_subject p.ticker, order) ∷ w.sent } in
      after_mark p w' (mark_closed fault p.id price reason nanos w.table)

  -- `(*ExitMonitor).close`: the link answers for json.Marshal and `Publish`, whose errors both end in
  -- `release`, and `faults` says which calls of `MarkClosed` the driver fails. The reference and the
  -- database take one time.
  unfoldable pub close : Link F → (ℕ → Option String) → ℕ → F → Target F → World F → World F
  unfolding release drop_from_cache
  close link faults nanos price (p, reason) w =
      let order = exit_order p reason price nanos in
      after_publish (faults p.id) nanos (p, reason) price order w
        (link (execute_subject p.ticker) order)

  unfoldable pub close_each :
      Link F → (ℕ → Option String) → ℕ → F → List (Target F) → World F → World F
  close_each link faults nanos price [] w = w
  close_each link faults nanos price (target ∷ targets) w =
      close_each link faults nanos price targets (close link faults nanos price target w)

  -- `(*ExitMonitor).evaluate`, at the given time.
  unfoldable pub evaluate :
      Option ℕ → Link F → (ℕ → Option String) → ℕ → String → F → World F → World F
  unfolding select close_each
  evaluate loc link faults now ticker price w =
      if is_opening_buffer loc now
      then w
      else if is_closing_cutoff loc now
      then w
      else let (targets, marks) =
          select price (lookup_or ticker w.monitor.cache []) w.monitor.in_flight in
        close_each link faults now price targets
          (record w { monitor = record (w.monitor) { in_flight = marks } })

  -- `(*ExitMonitor).HandlePrice`, on a subject and the decoded tick, or `none` for a bad payload.
  unfoldable pub handle_price :
      Option ℕ
      → Link F
      → (ℕ → Option String)
      → ℕ
      → String
      → Option (PriceTick F)
      → World F
      → World F
  handle_price loc link faults now subject none w = w
  handle_price loc link faults now subject (some tick) w =
      if is_empty tick.ticker || fl.le tick.price nought
      then w
      else evaluate loc link faults now (ticker_of subject) tick.price w
