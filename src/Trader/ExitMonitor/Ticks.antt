-- ===== src/Trader/ExitMonitor/Ticks.antt =====
-- src/analysts/trader/exitmonitor.go: what a tick leaves, and what `Refresh` restores.
use navier_stocks.Base.{
  ℕ, ◌≡◌, refl, ap, ◌∙◌, sym, false, not, ◌&&◌, Option, none, List, [], ◌∷◌, String, arith, All,
  ◌==◌,
}
use navier_stocks.Base.Dict.{lookup_or}
use navier_stocks.Float.{Float64}
use navier_stocks.Models.{Position, ExitReason, TradeExecution}
use navier_stocks.Clock.{is_opening_buffer, is_closing_cutoff}
use navier_stocks.Database.Positions.{open_rows}
use navier_stocks.Database.Positions.Keys.{Below-open_rows}
use navier_stocks.Database.Positions.Lifecycle.{Below, IsTable, without, open_rows-close_rows}
use navier_stocks.Risk.Executor.{Link}
use navier_stocks.Trader.ExitMonitor.{
  World, Target, has_id, select, close_each, evaluate, drop_from_cache,
}
use navier_stocks.Trader.ExitMonitor.Marks.{ids_of, select_marked}
use navier_stocks.Trader.ExitMonitor.Hits.{
  rows_of, not_in, IsFound, IsDistinct, hits, survivors, IsIdle, select-eq-hits, hits-IsFound,
  hits-IsDistinct, not_in-hits, Below-rows_of,
}
use navier_stocks.Trader.ExitMonitor.Exits.{
  Mirrors, Closed, closed_world, close_done, closed_world-Mirrors, not_in-cons, not_in-nil,
  Below-without, affected_of_open, find_row-without, has_id-remove_id, orders_onto,
}
use mathlib.Core.Path.{subst⁻¹}

module _ {F : Type 0} where
  -- Later targets are still found once one was closed.
  still-IsFound :
      (n id : ℕ) (ps : List (Position F)) (targets : List (Target F))
      → has_id id (ids_of targets) ≡ false
      → All (IsFound n ps) targets
      → All (IsFound n (without id ps)) targets
  still-IsFound n id ps [] d a = tt
  still-IsFound n id ps ((p, reason) ∷ targets) d a = (
    (a.0.0, find_row-without id p.id ps (ground arith) ∙ a.0.1),
    still-IsFound n id ps targets (ground arith) a.1,
  )

module _ {F : Type 0} ⦃fl : Float64 F⦄ where
  closed_world-marks :
      (nanos : ℕ) (price : F) (p : Position F) (reason : ExitReason) (w : World F) (j : ℕ)
      → has_id j (closed_world nanos price (p, reason) w).monitor.in_flight
        ≡ (not (p.id == j) && has_id j w.monitor.in_flight)
  unfolding drop_from_cache
  closed_world-marks nanos price p reason w j = has_id-remove_id p.id j w.monitor.in_flight

  close_each-Closed :
      (n : ℕ) (link : Link F) (faults : ℕ → Option String) (nanos : ℕ) (price : F)
      (targets : List (Target F)) (w : World F)
      → ((subject : String) (order : TradeExecution F) → link subject order ≡ none)
      → ((id : ℕ) → faults id ≡ none)
      → Below n (open_rows w.table.rows)
      → Mirrors w
      → IsDistinct (ids_of targets)
      → All (IsFound n (open_rows w.table.rows)) targets
      → Closed nanos price targets w (close_each link faults nanos price targets w)
  unfolding close_each
  close_each-Closed n link faults nanos price [] w taken kept b m d a = record {
    still_open = sym (not_in-nil (open_rows w.table.rows));
    mirrored = m;
    marks = λ j. refl;
    orders = refl;
  }
  close_each-Closed n link faults nanos price ((p, reason) ∷ targets) w taken kept b m d a =
      let w₁ = closed_world nanos price (p, reason) w in
      let now_open = open_rows-close_rows p.id price reason nanos w.table.rows in
      let found : All (IsFound n (open_rows w₁.table.rows)) targets =
        rw now_open (still-IsFound n p.id (open_rows w.table.rows) targets d.0 a.1) in
      let below : Below n (open_rows w₁.table.rows) =
        rw now_open (Below-without n p.id (open_rows w.table.rows) b) in
      let rest =
        close_each-Closed n link faults nanos price targets w₁ taken kept below
          (closed_world-Mirrors n nanos price p reason w b m a.0.1) d.1 found in
      rw
        (close_done link faults nanos price (p, reason) w taken kept
          (affected_of_open p.id p w.table.rows a.0.1))
        (record {
          still_open =
              rest.still_open
              ∙ ap (not_in (ids_of targets)) now_open
              ∙ sym (not_in-cons p.id (ids_of targets) (open_rows w.table.rows));
          mirrored = rest.mirrored;
          marks = λ j. rest.marks j ∙ ground (arith, closed_world-marks nanos price p reason w j);
          orders = rest.orders;
        })

  -- What a tick leaves.
  pub record Exits (ticker : String) (nanos : ℕ) (price : F) (w w' : World F) : Type 0 where
    pub still_open : open_rows w'.table.rows ≡ survivors ticker price (open_rows w.table.rows)
    pub mirrored : Mirrors w'
    pub idle : (j : ℕ) → has_id j w'.monitor.in_flight ≡ false
    pub orders :
        w'.sent
        ≡ orders_onto nanos price (hits price (rows_of ticker (open_rows w.table.rows))) w.sent

  pub evaluate-eq-close_each :
      (loc : Option ℕ) (link : Link F) (faults : ℕ → Option String) (now : ℕ) (ticker : String)
      (price : F) (w : World F)
      → is_opening_buffer loc now ≡ false
      → is_closing_cutoff loc now ≡ false
      → let cached = lookup_or ticker w.monitor.cache [] in
        evaluate loc link faults now ticker price w
        ≡ close_each link faults now price (select price cached w.monitor.in_flight).0 (record w {
          monitor = record (w.monitor) { in_flight = (select price cached w.monitor.in_flight).1 };
        })
  unfolding evaluate
  evaluate-eq-close_each loc link faults now ticker price w opening closing =
      rw (opening, closing) refl

  rows-IsIdle :
      (ids : List ℕ) (ps : List (Position F)) → ((j : ℕ) → has_id j ids ≡ false) → IsIdle ids ps
  rows-IsIdle ids [] h = tt
  rows-IsIdle ids (p ∷ ps) h = (h p.id, rows-IsIdle ids ps h)

  -- If the cache is in step and nothing is in flight, the targets are among the open rows.
  pub targets-eq-hits :
      (n : ℕ) (ticker : String) (price : F) (w : World F)
      → Below n (open_rows w.table.rows)
      → Mirrors w
      → ((j : ℕ) → has_id j w.monitor.in_flight ≡ false)
      → (select price (lookup_or ticker w.monitor.cache []) w.monitor.in_flight).0
        ≡ hits price (rows_of ticker (open_rows w.table.rows))
  targets-eq-hits n ticker price w below m idle =
      let rows = rows_of ticker (open_rows w.table.rows) in
      ap (λ cached. (select price cached w.monitor.in_flight).0) (m.mirrors ticker)
      ∙ select-eq-hits n price rows w.monitor.in_flight
          (Below-rows_of n ticker (open_rows w.table.rows) below)
          (rows-IsIdle w.monitor.in_flight rows idle)

  -- With the cache in step with the table, nothing in flight, and a link and a store that answer
  -- without an error, a tick outside the quiet windows closes exactly the open positions of its ticker
  -- whose boundary the price has crossed, with one order for each; the others stay open in their
  -- order; and the cache is in step again, with nothing in flight.
  pub evaluate-Exits :
      (loc : Option ℕ) (link : Link F) (faults : ℕ → Option String) (now : ℕ) (ticker : String)
      (price : F) (w : World F)
      → IsTable w.table
      → Mirrors w
      → ((j : ℕ) → has_id j w.monitor.in_flight ≡ false)
      → ((subject : String) (order : TradeExecution F) → link subject order ≡ none)
      → ((id : ℕ) → faults id ≡ none)
      → is_opening_buffer loc now ≡ false
      → is_closing_cutoff loc now ≡ false
      → Exits ticker now price w (evaluate loc link faults now ticker price w)
  evaluate-Exits loc link faults now ticker price w v m idle taken kept opening closing =
      rw (evaluate-eq-close_each loc link faults now ticker price w opening closing) (record {
        still_open =
            r.still_open
            ∙ ap (λ ts. not_in (ids_of ts) ps) targets-eq
            ∙ not_in-hits n ticker price ps below;
        mirrored = r.mirrored;
        idle = λ j.
            r.marks j ∙ ground (arith, select_marked j price cached w.monitor.in_flight, idle j);
        orders = r.orders ∙ ap (λ ts. orders_onto now price ts w.sent) targets-eq;
      })
    where
      n : ℕ
      n = w.table.next_id

      ps : List (Position F)
      ps = open_rows w.table.rows

      below : Below n ps
      below = Below-open_rows n w.table.rows v.keyed

      cached : List (Position F)
      cached = lookup_or ticker w.monitor.cache []

      targets : List (Target F)
      targets = (select price cached w.monitor.in_flight).0

      targets-eq : targets ≡ hits price (rows_of ticker ps)
      targets-eq = targets-eq-hits n ticker price w below m idle

      marked : World F
      marked = record w {
        monitor = record (w.monitor) { in_flight = (select price cached w.monitor.in_flight).1 };
      }

      r : Closed now price targets marked (close_each link faults now price targets marked)
      r =
          close_each-Closed n link faults now price targets marked taken kept below
            (record { mirrors = m.mirrors })
            (subst⁻¹ (λ ts. IsDistinct (ids_of ts)) targets-eq
              (hits-IsDistinct n ticker price ps below))
            (subst⁻¹ (All (IsFound n ps)) targets-eq (hits-IsFound n ticker price ps below))
