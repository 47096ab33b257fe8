-- ===== src/Trader/ExitMonitor/Recovery.antt =====
-- src/analysts/trader/exitmonitor.go: the tick after one whose orders or whose closings failed.
use mathlib.Core.Path.{subst⁻¹}
use navier_stocks.Base.{ℕ, ◌≡◌, ap, ◌∙◌, false, Option, none, some, List, [], String, arith}
use navier_stocks.Base.Dict.{lookup_or}
use navier_stocks.Float.{Float64}
use navier_stocks.Models.{Position, TradeExecution}
use navier_stocks.Clock.{is_opening_buffer, is_closing_cutoff}
use navier_stocks.Database.Positions.{open_rows}
use navier_stocks.Database.Positions.Keys.{Below-open_rows}
use navier_stocks.Database.Positions.Lifecycle.{IsTable}
use navier_stocks.Risk.Executor.{Link}
use navier_stocks.Trader.ExitMonitor.{World, has_id, select, evaluate, refresh}
use navier_stocks.Trader.ExitMonitor.Marks.{select_marked}
use navier_stocks.Trader.ExitMonitor.Hits.{rows_of, hits}
use navier_stocks.Trader.ExitMonitor.Exits.{Mirrors, orders_onto}
use navier_stocks.Trader.ExitMonitor.Ticks.{
  evaluate-eq-close_each, targets-eq-hits, Exits, evaluate-Exits,
}
use navier_stocks.Trader.ExitMonitor.Failures.{
  IsUnmarked, close_each_refused, close_each-IsUnmarked, refresh-Mirrors,
}

-- A link that takes every order, and one that refuses every order.
abbrev pub IsUp : {F : Type 0} → Link F → Type 0
IsUp {F = F} link = (subject : String) (order : TradeExecution F) → link subject order ≡ none

abbrev pub IsDown : {F : Type 0} → Link F → String → Type 0
IsDown {F = F} link message =
    (subject : String) (order : TradeExecution F) → link subject order ≡ some message

abbrev pub IsTrading : Option ℕ → ℕ → Type 0
IsTrading loc now = (is_opening_buffer loc now ≡ false) × (is_closing_cutoff loc now ≡ false)

module _ {F : Type 0} ⦃fl : Float64 F⦄ where
  abbrev pub IsIdleMonitor : World F → Type 0
  IsIdleMonitor w = (j : ℕ) → has_id j w.monitor.in_flight ≡ false

  -- The marks that a pass sets are gone once its targets' marks are.
  idle_again :
      (price : F) (ps : List (Position F)) (marks after : List ℕ)
      → ((j : ℕ) → has_id j marks ≡ false)
      → IsUnmarked (select price ps marks).0 (select price ps marks).1 after
      → (j : ℕ) → has_id j after ≡ false
  idle_again price ps marks after idle u j =
      ground (arith, u j, select_marked j price ps marks, idle j)

  evaluate_refused :
      (loc : Option ℕ) (link : Link F) (faults : ℕ → Option String) (now : ℕ) (ticker : String)
      (price : F) (w : World F) (message : String)
      → IsDown link message
      → IsTrading loc now
      → IsIdleMonitor w
      → (ids : List ℕ) × (evaluate loc link faults now ticker price w
          ≡ record w { monitor = record (w.monitor) { in_flight = ids } })
        × ((j : ℕ) → has_id j ids ≡ false)
  evaluate_refused loc link faults now ticker price w message down trading idle =
      let cached = lookup_or ticker w.monitor.cache [] in
      let pass = select price cached w.monitor.in_flight in
      let (ids, e, u) =
        close_each_refused link faults now price pass.0
          (record w { monitor = record (w.monitor) { in_flight = pass.1 } }) message down in
      (
        ids,
        evaluate-eq-close_each loc link faults now ticker price w trading.0 trading.1 ∙ e,
        idle_again price cached w.monitor.in_flight ids idle u,
      )

  -- Let the table be well-formed, the cache be in step with it, and nothing be in flight. A tick whose
  -- orders the link refuses loses nothing: the next tick at which link and store answer without an
  -- error closes what it would have closed in the first one's place. Both ticks are outside the opening
  -- buffer and the closing cutoff.
  pub refused_then_closed :
      (loc : Option ℕ) (down up : Link F) (faults faults' : ℕ → Option String) (now later : ℕ)
      (ticker ticker' : String) (price price' : F) (w : World F) (message : String)
      → IsTable w.table
      → Mirrors w
      → IsIdleMonitor w
      → IsDown down message
      → IsTrading loc now
      → IsUp up
      → ((id : ℕ) → faults' id ≡ none)
      → IsTrading loc later
      → Exits ticker' later price' w (
          evaluate loc up faults' later ticker' price'
            (evaluate loc down faults now ticker price w))
  refused_then_closed loc down up faults faults' now later ticker ticker' price price' w message v m
        idle is_down trading is_up kept trading' =
      let (ids, e, idle') =
        evaluate_refused loc down faults now ticker price w message is_down trading idle in
      let w' : World F = record w { monitor = record (w.monitor) { in_flight = ids } } in
      let r =
        evaluate-Exits loc up faults' later ticker' price' w' v (record { mirrors = m.mirrors })
          idle' is_up kept trading'.0 trading'.1 in
      rw e (record {
        still_open = r.still_open;
        mirrored = r.mirrored;
        idle = r.idle;
        orders = r.orders;
      })

  -- What a tick leaves if the link takes its orders and the store refuses every closing: the table is
  -- the one of before, though the orders are out, and nothing is in flight.
  pub evaluate_unmarked :
      (loc : Option ℕ) (link : Link F) (faults : ℕ → Option String) (now : ℕ) (ticker : String)
      (price : F) (w : World F) (message : String)
      → IsTable w.table
      → Mirrors w
      → IsIdleMonitor w
      → IsUp link
      → ((id : ℕ) → faults id ≡ some message)
      → IsTrading loc now
      → let w' = evaluate loc link faults now ticker price w in
        (w'.table ≡ w.table)
        × (w'.sent
            ≡ orders_onto now price (hits price (rows_of ticker (open_rows w.table.rows))) w.sent)
        × IsIdleMonitor w'
  evaluate_unmarked loc link faults now ticker price w message v m idle is_up fails trading =
      let cached = lookup_or ticker w.monitor.cache [] in
      let pass = select price cached w.monitor.in_flight in
      let r =
        close_each-IsUnmarked link faults now price pass.0
          (record w { monitor = record (w.monitor) { in_flight = pass.1 } }) message is_up fails in
      let found =
        targets-eq-hits w.table.next_id ticker price w
          (Below-open_rows w.table.next_id w.table.rows v.keyed) m idle in
      rw (evaluate-eq-close_each loc link faults now ticker price w trading.0 trading.1) (
        r.0,
        r.1 ∙ ap (λ ts. orders_onto now price ts w.sent) found,
        idle_again price cached w.monitor.in_flight _ idle r.2,
      )

  -- Let the table be well-formed, the cache be in step with it, and nothing be in flight. A tick
  -- outside the opening buffer and the closing cutoff publishes its orders on a link that takes all of
  -- them while the store refuses every closing; a refresh that reads the table follows, and then a tick
  -- of the same ticker, again outside the two windows, on the same link and with a store that takes
  -- every closing. That tick publishes a closing order again for every position that
  -- its price has crossed, whether or not the first tick has published one for it.
  pub unmarked_repeats :
      (loc : Option ℕ) (link : Link F) (faults faults' : ℕ → Option String) (now later : ℕ)
      (ticker : String) (price price' : F) (w : World F) (message : String)
      → IsTable w.table
      → Mirrors w
      → IsIdleMonitor w
      → IsUp link
      → ((id : ℕ) → faults id ≡ some message)
      → IsTrading loc now
      → ((id : ℕ) → faults' id ≡ none)
      → IsTrading loc later
      → let w' = evaluate loc link faults now ticker price w in
        let rows = rows_of ticker (open_rows w.table.rows) in
        (evaluate loc link faults' later ticker price'
          (record w' { monitor = (refresh none w'.table w'.monitor).1 })).sent
        ≡ orders_onto later price'
            (hits price' rows)
            (orders_onto now price (hits price rows) w.sent)
  unmarked_repeats loc link faults faults' now later ticker price price' w message v m idle is_up
        fails trading kept trading' =
      let w' = evaluate loc link faults now ticker price w in
      let one =
        evaluate_unmarked loc link faults now ticker price w message v m idle is_up fails trading in
      let (listed, marks, again) = refresh-Mirrors w' in
      let two =
        evaluate-Exits loc link faults' later ticker price'
          (record w' { monitor = (refresh none w'.table w'.monitor).1 })
          (subst⁻¹ (λ t. IsTable t) one.0 v) again (λ j. ap (has_id j) marks ∙ one.2 j) is_up kept
          trading'.0 trading'.1 in
      two.orders
      ∙ ap (λ t. orders_onto later price' (hits price' (rows_of ticker (open_rows t.rows))) w'.sent)
          one.0
      ∙ ap (orders_onto later price' (hits price' (rows_of ticker (open_rows w.table.rows)))) one.1
