-- ===== src/Trader/ExitMonitor/Marks.antt =====
-- src/analysts/trader/exitmonitor.go: the in-flight marks, and what the monitor publishes.
use navier_stocks.Base.{
  ℕ, ◌≡◌, refl, ◌∙◌, inl, inr, Bool, true, false, ◌||◌, Option, some, List, [], ◌∷◌, String, arith,
  Bool-cases, Option-cases, ◌==◌,
}
use navier_stocks.Base.Text.{has_prefix-reference, decimal_text}
use navier_stocks.Float.{Float64, nought}
use navier_stocks.Models.{Position, Side, ExitReason, TradeExecution, reason_stop_loss}
use navier_stocks.Clock.{is_opening_buffer, is_closing_cutoff}
use navier_stocks.Risk.Executor.{Link}
use navier_stocks.Trader.PaperTrader.{is_closing, pos_from_exec}
use navier_stocks.Trader.ExitMonitor.{World, Target, has_id, crossed, select, exit_order, evaluate}

module _ {F : Type 0} where
  abbrev pub ids_of : List (Target F) → List ℕ
  ids_of [] = []
  ids_of ((p, reason) ∷ targets) = p.id ∷ ids_of targets

or_shuffle : (a b c : Bool) → (a || (b || c)) ≡ ((b || a) || c)
or_shuffle true true c = refl
or_shuffle true false c = refl
or_shuffle false b c = ground arith

module _ {F : Type 0} ⦃fl : Float64 F⦄ where
  -- A mark is not lost by the loop.
  select_keeps :
      (id : ℕ) (price : F) (ps : List (Position F)) (marks : List ℕ)
      → has_id id marks ≡ true
      → has_id id (select price ps marks).1 ≡ true
  unfolding select
  select_keeps id price [] marks h = h
  select_keeps id price (p ∷ ps) marks h =
      ground (arith, select_keeps id price ps marks h, select_keeps id price ps (p.id ∷ marks))

  select_marks :
      (id : ℕ) (price : F) (ps : List (Position F)) (marks : List ℕ)
      → has_id id (ids_of (select price ps marks).0) ≡ true
      → has_id id (select price ps marks).1 ≡ true
  unfolding select
  select_marks id price [] marks h = ground arith
  select_marks id price (p ∷ ps) marks h = ground (
    arith,
    select_marks id price ps marks,
    select_marks id price ps (p.id ∷ marks),
    select_keeps id price ps (p.id ∷ marks),
  )

  select_skips :
      (id : ℕ) (price : F) (ps : List (Position F)) (marks : List ℕ)
      → has_id id marks ≡ true
      → has_id id (ids_of (select price ps marks).0) ≡ false
  unfolding select
  select_skips id price [] marks h = refl
  select_skips id price (p ∷ ps) marks h =
      ground (arith, select_skips id price ps marks h, select_skips id price ps (p.id ∷ marks))

  -- What one pass under the lock picks, no later pass picks again, at whatever prices and over whatever
  -- cached rows, before a mark is released.
  pub select_once :
      (id : ℕ) (price later_price : F) (ps later_ps : List (Position F)) (marks : List ℕ)
      → has_id id (ids_of (select price ps marks).0) ≡ true
      → has_id id (ids_of (select later_price later_ps (select price ps marks).1).0) ≡ false
  select_once id price later_price ps later_ps marks h =
      select_skips id later_price later_ps (select price ps marks).1
        (select_marks id price ps marks h)

  -- In the opening buffer and from the cutoff on, a price changes nothing.
  pub evaluate_quiet :
      (loc : Option ℕ) (link : Link F) (faults : ℕ → Option String) (now : ℕ) (ticker : String)
      (price : F) (w : World F)
      → (is_opening_buffer loc now || is_closing_cutoff loc now) ≡ true
      → evaluate loc link faults now ticker price w ≡ w
  unfolding evaluate
  evaluate_quiet loc link faults now ticker price w h = ground arith

  -- The closing order of the monitor is taken for a closing by the paper trader.
  pub exit_order_closes :
      (p : Position F) (reason : ExitReason) (price : F) (nanos : ℕ)
      → is_closing (exit_order p reason price nanos) ≡ true
  unfolding is_closing exit_order
  exit_order_closes p reason price nanos =
      rw (has_prefix-reference "exit-" (decimal_text p.id) (decimal_text nanos)) (ground arith)

  -- A short position that is opened without a stop gets one at 95 % of its price, below the price, so
  -- the first tick at the price of entry already closes it as stopped out.
  pub short_default_stop :
      (order : TradeExecution F)
      → order.side ≡ Side.short
      → fl.eq order.stop_loss nought ≡ true
      → fl.lt nought (fl.mul order.price (fl.decimal 95 2)) ≡ true
      → fl.le (fl.mul order.price (fl.decimal 95 2)) order.price ≡ true
      → crossed (pos_from_exec order) order.price ≡ some reason_stop_loss
  unfolding crossed pos_from_exec
  short_default_stop order s z pos below = rw (s, z, pos, below) refl

  -- The marks after a pass: those before it, and those of its targets.
  pub select_marked :
      (id : ℕ) (price : F) (ps : List (Position F)) (marks : List ℕ)
      → has_id id (select price ps marks).1
        ≡ (has_id id (ids_of (select price ps marks).0) || has_id id marks)
  unfolding select
  select_marked id price [] marks = refl
  select_marked id price (p ∷ ps) marks = elim (Bool-cases (has_id p.id marks)) [
    | inl marked ↦ rw marked (select_marked id price ps marks)
    | inr idle ↦ elim (Option-cases (crossed p price)) [
      | inl missed ↦ rw (idle, missed) (select_marked id price ps marks)
      | inr (reason, hit) ↦
          rw (idle, hit)
            (select_marked id price ps (p.id ∷ marks)
              ∙ or_shuffle (has_id id (ids_of (select price ps (p.id ∷ marks)).0)) (p.id == id)
                  (has_id id marks))
    ]
  ]
