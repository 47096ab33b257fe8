-- ===== src/Trader/ExitMonitor/Exits.antt =====
-- src/analysts/trader/exitmonitor.go: a tick on a cache that mirrors the open positions.
use navier_stocks.Base.{
  ℕ, ◌≡◌, refl, ap, ◌∙◌, inl, inr, true, false, not, ◌&&◌, Option, none, some, List, [], ◌∷◌,
  String, arith, if◌then◌else◌, Bool-cases, ◌==◌,
}
use navier_stocks.Base.Text.{str_eq, str_eq_iff}
use navier_stocks.Base.Dict.{Dict, lookup_or, insert, lookup-insert}
use navier_stocks.Float.{Float64}
use navier_stocks.Models.{Position, ExitReason, TradeExecution}
use navier_stocks.Database.Positions.{open_rows, affected, mark_closed, close_rows}
use navier_stocks.Database.Positions.Keys.{Below-mono, without-Below}
use navier_stocks.Database.Positions.Lifecycle.{Below, find_row, without, open_rows-close_rows}
use navier_stocks.Risk.Executor.{Link, Sent, execute_subject}
use navier_stocks.Trader.ExitMonitor.{
  World, Target, has_id, remove_id, other_ids, exit_order, close, drop_from_cache,
}
use navier_stocks.Trader.ExitMonitor.Marks.{ids_of}
use navier_stocks.Trader.ExitMonitor.Hits.{rows_of, not_in}

module _ {F : Type 0} where
  -- The cache has, for each ticker, its open rows in the order of the table.
  pub record Mirrors (w : World F) : Type 0 where
    pub mirrors : (j : String) → lookup_or j w.monitor.cache [] ≡ rows_of j (open_rows w.table.rows)

  rows_of-without :
      (j : String) (id : ℕ) (ps : List (Position F))
      → rows_of j (without id ps) ≡ other_ids id (rows_of j ps)
  rows_of-without j id [] = refl
  rows_of-without j id (p ∷ ps) = ground (arith, rows_of-without j id ps)

  -- Taking a row out leaves the rows of another ticker.
  rows_of-without_other :
      (n : ℕ) (j : String) (p : Position F) (ps : List (Position F))
      → Below n ps
      → find_row p.id ps ≡ some p
      → str_eq p.ticker j ≡ false
      → rows_of j (without p.id ps) ≡ rows_of j ps
  rows_of-without_other n j p [] b f ne = refl
  rows_of-without_other n j p (q ∷ ps) b f ne = elim (Bool-cases (q.id == p.id)) [
    | inl same ↦ ground (arith, without-Below q.id p.id ps b.1, f, ne, same)
    | inr other ↦ ground (arith, rows_of-without_other q.id j p ps b.1, f, ne, other)
  ]

  pub affected_of_open :
      (id : ℕ) (p : Position F) (ps : List (Position F))
      → find_row id (open_rows ps) ≡ some p
      → affected id ps ≡ true
  affected_of_open id p [] f = ground arith
  affected_of_open id p (q ∷ ps) f = ground (arith, affected_of_open id p ps)

  pub find_row-without :
      (id j : ℕ) (ps : List (Position F))
      → (j == id) ≡ false
      → find_row j (without id ps) ≡ find_row j ps
  find_row-without id j [] h = refl
  find_row-without id j (p ∷ ps) h = ground (arith, find_row-without id j ps h)

  pub lookup_or-insert :
      (k j : String) (v : List (Position F)) (m : Dict (List (Position F)))
      → lookup_or j (insert k v m) [] ≡ (if str_eq k j then v else lookup_or j m [])
  unfolding lookup_or
  lookup_or-insert k j v m = ground (arith, lookup-insert k j v m)

  pub not_in-cons :
      (id : ℕ) (ids : List ℕ) (ps : List (Position F))
      → not_in (id ∷ ids) ps ≡ not_in ids (without id ps)
  not_in-cons id ids [] = refl
  not_in-cons id ids (p ∷ ps) = ground (arith, not_in-cons id ids ps)

  pub not_in-nil : (ps : List (Position F)) → not_in [] ps ≡ ps
  not_in-nil [] = refl
  not_in-nil (p ∷ ps) = ap (λ l. p ∷ l) (not_in-nil ps)

  pub Below-without : (n id : ℕ) (ps : List (Position F)) → Below n ps → Below n (without id ps)
  Below-without n id [] b = tt
  Below-without n id (p ∷ ps) b =
      ground (arith, b.0, Below-without p.id id ps b.1, Below-mono p.id n (without id ps))

pub has_id-remove_id :
    (id j : ℕ) (ids : List ℕ) → has_id j (remove_id id ids) ≡ (not (id == j) && has_id j ids)
has_id-remove_id id j [] = ground arith
has_id-remove_id id j (i ∷ ids) = ground (arith, has_id-remove_id id j ids)

module _ {F : Type 0} ⦃fl : Float64 F⦄ where
  -- What `close` leaves if the link and the store both answer without an error.
  abbrev pub closed_world : ℕ → F → Target F → World F → World F
  closed_world nanos price (p, reason) w = record {
    monitor = drop_from_cache p.id p.ticker w.monitor;
    table = record (w.table) { rows = close_rows p.id price reason nanos w.table.rows };
    sent = (execute_subject p.ticker, exit_order p reason price nanos) ∷ w.sent;
  }

  pub close_done :
      (link : Link F) (faults : ℕ → Option String) (nanos : ℕ) (price : F) (target : Target F)
      (w : World F)
      → ((subject : String) (order : TradeExecution F) → link subject order ≡ none)
      → ((id : ℕ) → faults id ≡ none)
      → affected target.0.id w.table.rows ≡ true
      → close link faults nanos price target w ≡ closed_world nanos price target w
  unfolding close mark_closed
  close_done link faults nanos price (p, reason) w taken kept a =
      rw (taken (execute_subject p.ticker) (exit_order p reason price nanos), kept p.id, a) refl

  -- The closing orders of the targets, the last one first, in front of what was sent before.
  abbrev pub orders_onto : ℕ → F → List (Target F) → List (Sent F) → List (Sent F)
  orders_onto nanos price [] sent = sent
  orders_onto nanos price ((p, reason) ∷ targets) sent =
      orders_onto nanos price targets
        ((execute_subject p.ticker, exit_order p reason price nanos) ∷ sent)

  -- What closing the targets leaves.
  pub record Closed (nanos : ℕ) (price : F) (targets : List (Target F)) (w w' : World F)
      : Type 0 where
    pub still_open : open_rows w'.table.rows ≡ not_in (ids_of targets) (open_rows w.table.rows)
    pub mirrored : Mirrors w'
    pub marks :
        (j : ℕ)
        → has_id j w'.monitor.in_flight
          ≡ (not (has_id j (ids_of targets)) && has_id j w.monitor.in_flight)
    pub orders : w'.sent ≡ orders_onto nanos price targets w.sent

  pub closed_world-Mirrors :
      (n nanos : ℕ) (price : F) (p : Position F) (reason : ExitReason) (w : World F)
      → Below n (open_rows w.table.rows)
      → Mirrors w
      → find_row p.id (open_rows w.table.rows) ≡ some p
      → Mirrors (closed_world nanos price (p, reason) w)
  unfolding drop_from_cache
  closed_world-Mirrors n nanos price p reason w b m f = record {
    mirrors = λ j.
        let open_now = open_rows-close_rows p.id price reason nanos w.table.rows in
        lookup_or-insert p.ticker j (other_ids p.id (lookup_or p.ticker w.monitor.cache []))
          w.monitor.cache
        ∙ ground (
          arith,
          str_eq_iff p.ticker j,
          m.mirrors p.ticker,
          m.mirrors j,
          open_now,
          rows_of-without j p.id (open_rows w.table.rows),
          rows_of-without_other n j p (open_rows w.table.rows) b f,
        );
  }
