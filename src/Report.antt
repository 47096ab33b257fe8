-- ===== src/Report.antt =====
-- src/pkg/database/report.go: the performance summary of closed positions. A position without a
-- closing time has Go's zero time, which is before every other. `day_name` is
-- `ClosedAt.Format("2006-01-02")`, which depends on the time zone that the driver gives the rows.
pub mod Totals
pub mod AnyOrder
use navier_stocks.Base.{
  ℕ, suc, ◌+◌, Bool, true, false, Option, none, some, List, [], ◌∷◌, String, ltb, if◌then◌else◌,
}
use navier_stocks.Base.Int.{ℤ, pos}
use navier_stocks.Base.Dict.{Dict, insert, lookup, lookup_or}
use navier_stocks.Float.{Float64, nought}
use navier_stocks.Models.{Position, is_closed}

-- `Summary`
pub record Summary (F : Type 0) : Type 0 where
  pub closed_trades : ℕ
  pub total_pnl : F
  pub wins : ℕ
  pub losses : ℕ
  pub win_rate : F
  pub avg_win : F
  pub avg_loss : F
  pub max_drawdown : F
  pub by_ticker : Dict F
  pub by_day : Dict F
  pub by_exit_reason : Dict F

-- The summary and the variables that the loop of `ComputeSummary` keeps.
pub record Tally (F : Type 0) : Type 0 where
  pub so_far : Summary F
  pub win_sum : F
  pub loss_sum : F
  pub equity : F
  pub peak : F

-- `ClosedAt.Before`
abbrev pub closed_before : Option ℕ → Option ℕ → Bool
closed_before none none = false
closed_before none (some b) = true
closed_before (some a) none = false
closed_before (some a) (some b) = ltb a b

module _ {F : Type 0} where
  -- `sort.SliceStable` by the closing time: a stable sort by insertion.
  abbrev pub insert_position : Position F → List (Position F) → List (Position F)
  insert_position p [] = p ∷ []
  insert_position p (q ∷ qs) =
      if closed_before q.closed_at p.closed_at then q ∷ insert_position p qs else p ∷ q ∷ qs

  unfoldable pub ordered : List (Position F) → List (Position F)
  ordered [] = []
  ordered (p ∷ ps) = insert_position p (ordered ps)

module _ {F : Type 0} ⦃fl : Float64 F⦄ where
  -- `m[k] += x`
  abbrev pub add_at : String → F → Dict F → Dict F
  add_at k x m = insert k (fl.add (lookup_or k m nought) x) m

  -- The `switch` on the sign of a position's result.
  abbrev pub count_result : F → Tally F → Tally F
  count_result pnl t =
      let s = t.so_far in
      if fl.lt nought pnl
      then record t { so_far = record s { wins = suc s.wins }; win_sum = fl.add t.win_sum pnl }
      else if fl.lt pnl nought
      then record t {
        so_far = record s { losses = suc s.losses };
        loss_sum = fl.add t.loss_sum pnl;
      }
      else t

  -- The equity after a position, its peak, and the deepest fall from it.
  abbrev pub raise : F → F → F
  raise m x = if fl.lt m x then x else m

  abbrev pub track_equity : F → Tally F → Tally F
  track_equity pnl t =
      let s = t.so_far in
      let equity = fl.add t.equity pnl in
      let peak = raise t.peak equity in
      record t {
        so_far = record s { max_drawdown = raise s.max_drawdown (fl.sub peak equity) };
        equity = equity;
        peak = peak;
      }

  -- The counts and sums that a closed position goes into whatever its sign.
  abbrev pub add_trade : (Option ℕ → String) → Position F → Tally F → Tally F
  add_trade day_name p t =
      let s = t.so_far in
      record t {
        so_far = record s {
          closed_trades = suc s.closed_trades;
          total_pnl = fl.add s.total_pnl p.pnl;
          by_ticker = add_at p.ticker p.pnl s.by_ticker;
          by_day = add_at (day_name p.closed_at) p.pnl s.by_day;
          by_exit_reason = add_at p.exit_reason p.pnl s.by_exit_reason;
        };
      }

  -- The body of the loop, for a position that is closed.
  abbrev pub book : (Option ℕ → String) → Position F → Tally F → Tally F
  book day_name p t = track_equity p.pnl (count_result p.pnl (add_trade day_name p t))

  unfoldable pub tally : (Option ℕ → String) → Tally F → List (Position F) → Tally F
  tally day_name t [] = t
  tally day_name t (p ∷ ps) =
      tally day_name (if is_closed p.status then book day_name p t else t) ps

  abbrev pub no_tally : Tally F
  no_tally = record {
    so_far = record {
      closed_trades = 0;
      total_pnl = nought;
      wins = 0;
      losses = 0;
      win_rate = nought;
      avg_win = nought;
      avg_loss = nought;
      max_drawdown = nought;
      by_ticker = [];
      by_day = [];
      by_exit_reason = [];
    };
    win_sum = nought;
    loss_sum = nought;
    equity = nought;
    peak = nought;
  }

  -- A quotient by a count, and zero where the count is.
  abbrev pub per : F → ℕ → F
  per x n = if ltb 0 n then fl.div x (fl.of_int (pos n)) else nought

  -- The rates, from the counts of the loop.
  abbrev pub with_rates : Tally F → Summary F
  with_rates t =
      let s = t.so_far in
      record s {
        win_rate = per (fl.of_int (pos s.wins)) (s.wins + s.losses);
        avg_win = per t.win_sum s.wins;
        avg_loss = per t.loss_sum s.losses;
      }

  -- `ComputeSummary`
  unfoldable pub compute_summary : (Option ℕ → String) → List (Position F) → Summary F
  unfolding ordered tally
  compute_summary day_name ps = with_rates (tally day_name no_tally (ordered ps))
