-- ===== src/Trader/ExitMonitor/Failures.antt =====
-- src/analysts/trader/exitmonitor.go: `Refresh`, and ticks whose orders or whose closings fail.
use mathlib.Core.List.{append-nil, append_assoc}
use navier_stocks.Base.{
  ℕ, ◌≡◌, refl, ap, ◌∙◌, sym, inl, inr, not, ◌&&◌, Option, none, some, List, [], ◌∷◌, ◌++◌, String,
  arith, Bool-cases,
}
use navier_stocks.Base.Text.{str_eq, str_eq_iff}
use navier_stocks.Base.Dict.{Dict, lookup_or, lookup, insert}
use navier_stocks.Float.{Float64}
use navier_stocks.Models.{Position, ExitReason, TradeExecution}
use navier_stocks.Database.Positions.{open_rows, list_open, mark_closed}
use navier_stocks.Risk.Executor.{Link, execute_subject}
use navier_stocks.Trader.ExitMonitor.{
  World, Target, has_id, exit_order, close, close_each, drop_from_cache, group, refresh, release,
}
use navier_stocks.Trader.ExitMonitor.Marks.{ids_of}
use navier_stocks.Trader.ExitMonitor.Hits.{rows_of}
use navier_stocks.Trader.ExitMonitor.Exits.{
  Mirrors, has_id-remove_id, orders_onto, lookup_or-insert,
}

module _ {F : Type 0} where
  insert_row :
      (j : String) (next : Dict (List (Position F))) (p : Position F) (ps : List (Position F))
      → lookup_or j (insert p.ticker (lookup_or p.ticker next [] ++ p ∷ []) next) [] ++ rows_of j ps
        ≡ lookup_or j next [] ++ rows_of j (p ∷ ps)
  insert_row j next p ps =
      let entry = lookup_or p.ticker next [] ++ p ∷ [] in
      ap (λ rows. rows ++ rows_of j ps) (lookup_or-insert p.ticker j entry next)
      ∙ elim (Bool-cases (str_eq p.ticker j)) [
        | inr other ↦ rw other refl
        | inl same ↦ rw same (
            append_assoc (lookup_or p.ticker next []) (p ∷ []) (rows_of j ps)
            ∙ ap (λ k. lookup_or k next [] ++ p ∷ rows_of j ps) ((str_eq_iff p.ticker j).0 same))
      ]

  lookup_or-group :
      (j : String) (next : Dict (List (Position F))) (ps : List (Position F))
      → lookup_or j (group next ps) [] ≡ lookup_or j next [] ++ rows_of j ps
  unfolding group
  lookup_or-group j next [] = sym (append-nil (lookup_or j next []))
  lookup_or-group j next (p ∷ ps) =
      lookup_or-group j (insert p.ticker (lookup_or p.ticker next [] ++ p ∷ []) next) ps
      ∙ insert_row j next p ps

  -- A `Refresh` that can list the open positions puts the cache in step with them and keeps the
  -- marks.
  pub refresh-Mirrors :
      (w : World F)
      → let r = refresh none w.table w.monitor in
        (r.0 ≡ none) × (r.1.in_flight ≡ w.monitor.in_flight) × Mirrors (record w { monitor = r.1 })
  unfolding refresh list_open lookup_or lookup
  refresh-Mirrors w =
      (refl, refl, record { mirrors = λ j. lookup_or-group j [] (open_rows w.table.rows) })

module _ {F : Type 0} ⦃fl : Float64 F⦄ where
  -- That the marks are those of before without the targets'.
  abbrev pub IsUnmarked : List (Target F) → List ℕ → List ℕ → Type 0
  IsUnmarked targets before after =
      (j : ℕ) → has_id j after ≡ (not (has_id j (ids_of targets)) && has_id j before)

  close_refused :
      (link : Link F) (faults : ℕ → Option String) (nanos : ℕ) (price : F) (target : Target F)
      (w : World F) (message : String)
      → ((subject : String) (order : TradeExecution F) → link subject order ≡ some message)
      → close link faults nanos price target w
        ≡ record w { monitor = release target.0.id w.monitor }
  unfolding close
  close_refused link faults nanos price (p, reason) w message down =
      rw (down (execute_subject p.ticker) (exit_order p reason price nanos)) refl

  -- What `close` leaves if only `MarkClosed` fails.
  abbrev unmarked_world : ℕ → F → Position F → ExitReason → World F → World F
  unmarked_world nanos price p reason w = record w {
    monitor = drop_from_cache p.id p.ticker w.monitor;
    sent = (execute_subject p.ticker, exit_order p reason price nanos) ∷ w.sent;
  }

  close_unmarked :
      (link : Link F) (faults : ℕ → Option String) (nanos : ℕ) (price : F) (p : Position F)
      (reason : ExitReason) (w : World F) (message : String)
      → ((subject : String) (order : TradeExecution F) → link subject order ≡ none)
      → ((id : ℕ) → faults id ≡ some message)
      → close link faults nanos price (p, reason) w ≡ unmarked_world nanos price p reason w
  unfolding close mark_closed
  close_unmarked link faults nanos price p reason w message taken fails =
      rw (taken (execute_subject p.ticker) (exit_order p reason price nanos), fails p.id) refl

  pub close_each_refused :
      (link : Link F) (faults : ℕ → Option String) (nanos : ℕ) (price : F)
      (targets : List (Target F)) (w : World F) (message : String)
      → ((subject : String) (order : TradeExecution F) → link subject order ≡ some message)
      → (ids : List ℕ) × (close_each link faults nanos price targets w
          ≡ record w { monitor = record (w.monitor) { in_flight = ids } })
        × IsUnmarked targets w.monitor.in_flight ids
  unfolding close_each release
  close_each_refused link faults nanos price [] w message down =
      (w.monitor.in_flight, refl, λ j. refl)
  close_each_refused link faults nanos price ((p, reason) ∷ targets) w message down =
      let (ids, e, unmarked) =
        close_each_refused link faults nanos price targets
          (record w { monitor = release p.id w.monitor }) message down in
      (
        ids,
        ap (close_each link faults nanos price targets)
              (close_refused link faults nanos price (p, reason) w message down)
            ∙ e,
        λ j. unmarked j ∙ ground (arith, has_id-remove_id p.id j w.monitor.in_flight),
      )

  pub close_each-IsUnmarked :
      (link : Link F) (faults : ℕ → Option String) (nanos : ℕ) (price : F)
      (targets : List (Target F)) (w : World F) (message : String)
      → ((subject : String) (order : TradeExecution F) → link subject order ≡ none)
      → ((id : ℕ) → faults id ≡ some message)
      → let w' = close_each link faults nanos price targets w in
        (w'.table ≡ w.table)
        × (w'.sent ≡ orders_onto nanos price targets w.sent)
        × IsUnmarked targets w.monitor.in_flight w'.monitor.in_flight
  unfolding close_each drop_from_cache
  close_each-IsUnmarked link faults nanos price [] w message taken fails = (refl, refl, λ j. refl)
  close_each-IsUnmarked link faults nanos price ((p, reason) ∷ targets) w message taken fails =
      let rest =
        close_each-IsUnmarked link faults nanos price targets
          (unmarked_world nanos price p reason w) message taken fails in
      rw (close_each, close_unmarked link faults nanos price p reason w message taken fails)
        (
          rest.0,
          rest.1,
          λ j. rest.2 j ∙ ground (arith, has_id-remove_id p.id j w.monitor.in_flight),
        )
