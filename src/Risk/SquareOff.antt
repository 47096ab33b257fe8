-- ===== src/Risk/SquareOff.antt =====
-- src/analysts/riskmanager/squareoff.go: the liquidation of every open position at 15:15 IST. The
-- position store is the table of Database.Positions; `Faults` says which of its calls fail.
pub mod Closing
pub mod Liquidation
use navier_stocks.Base.{
  ℕ, ◌+◌, ◌*◌, Bool, true, false, ◌||◌, Option, none, some, List, [], ◌∷◌, String, ltb, ◌==◌,
  if◌then◌else◌,
}
use navier_stocks.Base.Text.{concat, decimal_text}
use navier_stocks.Float.{Float64, nought}
use navier_stocks.Models.{Side, Position, TradeExecution, is_long, reason_square_off}
use navier_stocks.Clock.{day_of, time_of_day, at_clock, before}
use navier_stocks.Database.{Stored, done, refused}
use navier_stocks.Database.Positions.{Table, list_open, mark_closed}
use navier_stocks.Risk.{Refusal}
use navier_stocks.Risk.Exposure.{Exposure, release}
use navier_stocks.Risk.Executor.{Link, Sent, publish_execution}
use navier_stocks.Risk.Agent.{Agent, latest_price}

pub record Faults : Type 0 where
  pub on_list : Option String
  pub on_close : ℕ → Option String

-- The side of a closing order.
abbrev pub opposite : Side → Side
opposite side = if is_long side then Side.short else Side.long

-- The agent, the table, and whether every position so far was closed.
abbrev pub Progress : Type 0 → Type 0
Progress F = Agent F × Table F × Bool

abbrev pub is_today : Option ℕ → ℕ → Bool
is_today none day = false
is_today (some d) day = d == day

module _ {F : Type 0} ⦃fl : Float64 F⦄ where
  -- The price of a closing order: the latest one seen, or the entry price where there is none.
  abbrev pub exit_price_of : Agent F → Position F → F
  exit_price_of g p =
      let latest = latest_price g p.ticker in if fl.le latest nought then p.entry_price else latest

  -- The order that `signalSquareOff` sends.
  unfoldable pub square_off_order : Position F → F → ℕ → TradeExecution F
  square_off_order p exit_price now = record {
    ticker = p.ticker;
    side = opposite p.side;
    quantity = p.quantity;
    price = exit_price;
    stop_loss = nought;
    take_profit = nought;
    sector = p.sector;
    signal_reason = "auto_square_off";
    execution_ref = concat (concat (concat "sqoff-" p.execution_ref) "-") (decimal_text now);
    position_id = p.id;
  }

  abbrev release_in : Option (Exposure F) → Position F → Option (Exposure F)
  release_in none p = none
  release_in (some e) p = some (release e p.side p.sector)

  after_mark : Agent F → Table F → Bool → Position F → Stored (Table F) → Progress F
  after_mark g t all p (refused error) = (g, t, false)
  after_mark g t all p (done t') = (record g { exposure = release_in g.exposure p }, t', all)

  after_signal :
      Faults
      → ℕ
      → Agent F
      → Table F
      → Bool
      → Position F
      → F
      → Option Refusal × List (Sent F)
      → Progress F
  unfolding after_mark
  after_signal faults now g t all p exit_price (some error, sent) =
      (record g { sent = sent }, t, false)
  after_signal faults now g t all p exit_price (none, sent) =
      after_mark (record g { sent = sent }) t all p
        (mark_closed (faults.on_close p.id) p.id exit_price reason_square_off now t)

  -- One round of the loop of `liquidate`; the price, as in the code, is read first.
  pub liquidate_one : Faults → ℕ → Position F → Progress F → Progress F
  unfolding after_signal
  liquidate_one faults now p (g, t, all) =
      let exit_price = exit_price_of g p in
      after_signal faults now g t all p exit_price
        (publish_execution g.link g.sent (square_off_order p exit_price now))

  pub liquidate_each : Faults → ℕ → List (Position F) → Progress F → Progress F
  liquidate_each faults now [] s = s
  liquidate_each faults now (p ∷ ps) s = liquidate_each faults now ps (liquidate_one faults now p s)

  -- What `liquidate` makes of the open positions: the error of the listing, or the new state, where
  -- `allClosed` is the flag of the loop, which is true for no position at all.
  abbrev liquidate_listed :
      Faults → ℕ → Agent F → Table F → Stored (List (Position F)) → Bool × Agent F × Table F
  liquidate_listed faults now g t (refused error) = (false, g, t)
  liquidate_listed faults now g t (done ps) =
      let (g', t', all) = liquidate_each faults now ps (g, t, true) in
      (true, record g' { all_closed = all }, t')

  -- `(*Analyst).liquidate`; the flag says that it returned no error.
  unfoldable pub liquidate : Faults → ℕ → Agent F → Table F → Bool × Agent F × Table F
  unfolding liquidate_each liquidate_one
  liquidate faults now g t = liquidate_listed faults now g t (list_open faults.on_list t)

  abbrev mark_day : ℕ → Bool × Agent F × Table F → Agent F × Table F
  mark_day day (false, g, t) = (g, t)
  mark_day day (true, g, t) = (if g.all_closed then record g { sq_done = some day } else g, t)

  -- `(*Analyst).squareOff`
  unfoldable pub square_off : Option ℕ → Faults → ℕ → Agent F → Table F → Agent F × Table F
  square_off none faults now g t = (g, t)
  square_off (some zone) faults now g t =
      if g.positions_wired
      then (if before (time_of_day zone now) (at_clock 15 15)
          then (g, t)
          else if is_today g.sq_done (day_of zone now)
          then (g, t)
          else mark_day (day_of zone now) (liquidate faults now g t))
      else (g, t)
