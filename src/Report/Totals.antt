-- ===== src/Report/Totals.antt =====
-- src/pkg/database/report.go: what the summary of `ComputeSummary` holds.
use navier_stocks.Base.{
  ℕ, suc, ◌+◌, ◌≡◌, refl, sym, ap, ◌∙◌, inl, inr, Option, none, some, List, [], ◌∷◌, String, arith,
  if◌then◌else◌, Bool-cases, Option-cases, length, map,
}
use navier_stocks.Base.Int.{pos}
use navier_stocks.Base.Dict.{Dict, lookup, lookup_or, lookup-insert}
use navier_stocks.Base.Text.{str_eq, str_eq_iff}
use navier_stocks.Float.{Float64, nought}
use navier_stocks.Statistics.{sum_from, sum}
use navier_stocks.Models.{Position, is_closed}
use navier_stocks.Report.{
  Summary, Tally, add_at, count_result, raise, add_trade, book, tally, no_tally, per, with_rates,
  ordered, compute_summary,
}

module _ {F : Type 0} where
  -- The closed positions of a list.
  abbrev pub closed_of : List (Position F) → List (Position F)
  closed_of [] = []
  closed_of (p ∷ ps) = if is_closed p.status then p ∷ closed_of ps else closed_of ps

  abbrev pub pnls : List (Position F) → List F
  pnls = map (λ (p : Position F). p.pnl)

  -- The positions with the key `k`.
  abbrev pub with_key : (Position F → String) → String → List (Position F) → List (Position F)
  with_key key k [] = []
  with_key key k (p ∷ ps) = if str_eq (key p) k then p ∷ with_key key k ps else with_key key k ps

module _ {F : Type 0} ⦃fl : Float64 F⦄ where
  -- How many amounts are above zero, and how many below.
  abbrev pub gains : List F → ℕ
  gains [] = 0
  gains (x ∷ xs) = if fl.lt nought x then suc (gains xs) else gains xs

  abbrev pub falls : List F → ℕ
  falls [] = 0
  falls (x ∷ xs) =
      if fl.lt nought x then falls xs else if fl.lt x nought then suc (falls xs) else falls xs

  -- An entry of a map, after more amounts: there is one from the first amount on.
  abbrev pub entry_from : Option F → List F → Option F
  entry_from o [] = o
  entry_from none (x ∷ xs) = entry_from (some (fl.add nought x)) xs
  entry_from (some s) (x ∷ xs) = entry_from (some (fl.add s x)) xs

  abbrev book_all : (Option ℕ → String) → Tally F → List (Position F) → Tally F
  book_all day_name t [] = t
  book_all day_name t (p ∷ ps) = book_all day_name (book day_name p t) ps

  tally-closed_of :
      (day_name : Option ℕ → String) (t : Tally F) (ps : List (Position F))
      → tally day_name t ps ≡ book_all day_name t (closed_of ps)
  unfolding tally
  tally-closed_of day_name t [] = refl
  tally-closed_of day_name t (p ∷ ps) = elim (Bool-cases (is_closed p.status)) [
    | inl closed ↦ rw closed (tally-closed_of day_name (book day_name p t) ps)
    | inr other ↦ rw other (tally-closed_of day_name t ps)
  ]

  -- `count_result` counts an amount, and changes nothing else that the summary is made of.
  record Counted (x : F) (t u : Tally F) : Type 0 where
    pub wins : u.so_far.wins ≡ t.so_far.wins + gains (x ∷ [])
    pub losses : u.so_far.losses ≡ t.so_far.losses + falls (x ∷ [])
    pub trades : u.so_far.closed_trades ≡ t.so_far.closed_trades
    pub total : u.so_far.total_pnl ≡ t.so_far.total_pnl
    pub tickers : u.so_far.by_ticker ≡ t.so_far.by_ticker
    pub days : u.so_far.by_day ≡ t.so_far.by_day
    pub reasons : u.so_far.by_exit_reason ≡ t.so_far.by_exit_reason
    pub drawdown : u.so_far.max_drawdown ≡ t.so_far.max_drawdown
    pub equity : u.equity ≡ t.equity
    pub peak : u.peak ≡ t.peak

  count_result-Counted : (x : F) (t : Tally F) → Counted x t (count_result x t)
  count_result-Counted x t = elim (Bool-cases (fl.lt nought x)) [
    | inl gain ↦ rw gain (record {
      wins = ground (arith, gain);
      losses = ground (arith, gain);
      trades = refl;
      total = refl;
      tickers = refl;
      days = refl;
      reasons = refl;
      drawdown = refl;
      equity = refl;
      peak = refl;
    })
    | inr even ↦ elim (Bool-cases (fl.lt x nought)) [
      | inl fall ↦
          rw (even, fall)
            (record {
              wins = ground (arith, even);
              losses = ground (arith, even, fall);
              trades = refl;
              total = refl;
              tickers = refl;
              days = refl;
              reasons = refl;
              drawdown = refl;
              equity = refl;
              peak = refl;
            })
      | inr zero ↦
          rw (even, zero)
            (record {
              wins = ground (arith, even);
              losses = ground (arith, even, zero);
              trades = refl;
              total = refl;
              tickers = refl;
              days = refl;
              reasons = refl;
              drawdown = refl;
              equity = refl;
              peak = refl;
            })
    ]
  ]

  -- The amounts that a map's entry for `k` gets from a list of positions.
  abbrev pub amounts_of : (Position F → String) → String → List (Position F) → List F
  amounts_of key k ps = pnls (with_key key k ps)

  lookup_or_elim :
      (k : String) (m : Dict F) (d : F) (o : Option F)
      → lookup k m ≡ o
      → lookup_or k m d ≡ elim o [ none ↦ d | some v ↦ v ]
  unfolding lookup_or
  lookup_or_elim k m d o h = ap (λ o. elim o [ none ↦ d | some v ↦ v ]) h

  lookup-add_at :
      (k j : String) (x : F) (m : Dict F)
      → lookup k (add_at j x m)
        ≡ (if str_eq j k then entry_from (lookup k m) (x ∷ []) else lookup k m)
  lookup-add_at k j x m = elim (Bool-cases (str_eq j k)) [
    | inl same ↦
        let e = (str_eq_iff j k).0 same in
        elim (Option-cases (lookup j m)) [
          | inl none_yet ↦
              rw (lookup-insert, same, sym e, lookup_or_elim j m nought none none_yet, none_yet)
                refl
          | inr (s, some_yet) ↦
              rw (lookup-insert, same, sym e, lookup_or_elim j m nought (some s) some_yet, some_yet)
                refl
        ]
    | inr other ↦ simp (lookup-insert, other)
  ]

  entry_from-add_at :
      (key : Position F → String) (k : String) (m : Dict F) (p : Position F)
      (ps : List (Position F))
      → entry_from (lookup k (add_at (key p) p.pnl m)) (amounts_of key k ps)
        ≡ entry_from (lookup k m) (amounts_of key k (p ∷ ps))
  entry_from-add_at key k m p ps = elim (Bool-cases (str_eq (key p) k)) [
    | inl same ↦ elim (Option-cases (lookup k m)) [
      | inl none_yet ↦ rw (lookup-add_at k (key p) p.pnl m, same, none_yet) refl
      | inr (s, some_yet) ↦ rw (lookup-add_at k (key p) p.pnl m, same, some_yet) refl
    ]
    | inr other ↦ rw (lookup-add_at k (key p) p.pnl m, other) refl
  ]

  -- The equity after each amount, how far it is below its peak, and the greatest of some amounts.
  abbrev pub curve : F → List F → List F
  curve e [] = []
  curve e (x ∷ xs) = fl.add e x ∷ curve (fl.add e x) xs

  abbrev pub depths : F → List F → List F
  depths peak [] = []
  depths peak (e ∷ es) = fl.sub (raise peak e) e ∷ depths (raise peak e) es

  abbrev pub highest : F → List F → F
  highest m [] = m
  highest m (x ∷ xs) = highest (raise m x) xs

  -- The entry for `k` of a map that gets the amounts of a list.
  abbrev pub entry_after : (Position F → String) → String → List (Position F) → Dict F → Option F
  entry_after key k ps m = entry_from (lookup k m) (amounts_of key k ps)

  gains_cons : (x : F) (xs : List F) → gains (x ∷ xs) ≡ gains (x ∷ []) + gains xs
  gains_cons x xs = ground arith

  falls_cons : (x : F) (xs : List F) → falls (x ∷ xs) ≡ falls (x ∷ []) + falls xs
  falls_cons x xs = ground arith

  -- What the loop does to everything that it keeps.
  record Booked (day_name : Option ℕ → String) (t u : Tally F) (ps : List (Position F))
      : Type 0 where
    pub trades : u.so_far.closed_trades ≡ t.so_far.closed_trades + length ps
    pub total : u.so_far.total_pnl ≡ sum_from t.so_far.total_pnl (pnls ps)
    pub wins : u.so_far.wins ≡ t.so_far.wins + gains (pnls ps)
    pub losses : u.so_far.losses ≡ t.so_far.losses + falls (pnls ps)
    pub tickers :
        (k : String)
        → lookup k u.so_far.by_ticker ≡ entry_after (λ p. p.ticker) k ps t.so_far.by_ticker
    pub days :
        (k : String)
        → lookup k u.so_far.by_day ≡ entry_after (λ p. day_name p.closed_at) k ps t.so_far.by_day
    pub reasons :
        (k : String)
        → lookup k u.so_far.by_exit_reason
          ≡ entry_after (λ p. p.exit_reason) k ps t.so_far.by_exit_reason
    pub drawdown :
        u.so_far.max_drawdown
        ≡ highest t.so_far.max_drawdown (depths t.peak (curve t.equity (pnls ps)))

  book_all-Booked :
      (day_name : Option ℕ → String) (t : Tally F) (ps : List (Position F))
      → Booked day_name t (book_all day_name t ps) ps
  book_all-Booked day_name t [] = record {
    trades = omega arith;
    total = refl;
    wins = omega arith;
    losses = omega arith;
    tickers = λ k. refl;
    days = λ k. refl;
    reasons = λ k. refl;
    drawdown = refl;
  }
  book_all-Booked day_name t (p ∷ ps) =
      let rest = book_all-Booked day_name (book day_name p t) ps in
      let c = count_result-Counted p.pnl (add_trade day_name p t) in
      record {
        trades = omega (arith, rest.trades, c.trades);
        total = rest.total ∙ ap (λ s. sum_from s (pnls ps)) c.total;
        wins = omega (arith, rest.wins, c.wins, gains_cons p.pnl (pnls ps));
        losses = omega (arith, rest.losses, c.losses, falls_cons p.pnl (pnls ps));
        tickers = λ k.
            rest.tickers k
            ∙ ap (entry_after (λ p. p.ticker) k ps) c.tickers
            ∙ entry_from-add_at (λ p. p.ticker) k t.so_far.by_ticker p ps;
        days = λ k.
            rest.days k
            ∙ ap (entry_after (λ p. day_name p.closed_at) k ps) c.days
            ∙ entry_from-add_at (λ p. day_name p.closed_at) k t.so_far.by_day p ps;
        reasons = λ k.
            rest.reasons k
            ∙ ap (entry_after (λ p. p.exit_reason) k ps) c.reasons
            ∙ entry_from-add_at (λ p. p.exit_reason) k t.so_far.by_exit_reason p ps;
        drawdown = rest.drawdown ∙ rw (c.drawdown, c.equity, c.peak) refl;
      }

  -- What a summary of some closed positions, in the order of their closing, holds.
  pub record Summarizes (day_name : Option ℕ → String) (rows : List (Position F)) (s : Summary F)
      : Type 0 where
    pub trades : s.closed_trades ≡ length rows
    pub total : s.total_pnl ≡ sum (pnls rows)
    pub wins : s.wins ≡ gains (pnls rows)
    pub losses : s.losses ≡ falls (pnls rows)
    pub rate :
        s.win_rate
        ≡ per (fl.of_int (pos (gains (pnls rows)))) (gains (pnls rows) + falls (pnls rows))
    pub tickers : (k : String) → lookup k s.by_ticker ≡ entry_after (λ p. p.ticker) k rows []
    pub days : (k : String) → lookup k s.by_day ≡ entry_after (λ p. day_name p.closed_at) k rows []
    pub reasons :
        (k : String) → lookup k s.by_exit_reason ≡ entry_after (λ p. p.exit_reason) k rows []
    pub drawdown : s.max_drawdown ≡ highest nought (depths nought (curve nought (pnls rows)))

  win_rate-with_rates :
      (t : Tally F) (w l : ℕ)
      → t.so_far.wins ≡ w
      → t.so_far.losses ≡ l
      → (with_rates t).win_rate ≡ per (fl.of_int (pos w)) (w + l)
  win_rate-with_rates t w l hw hl = rw (hw, hl) refl

  -- `ComputeSummary` counts the closed positions, their gains and their falls, adds their results up
  -- as a whole and for each ticker, day and reason that occurs, gives the share of the gains among the
  -- results that are not zero, and takes for the drawdown the greatest fall of the equity below its
  -- peak, in the order of the closing times.
  pub compute_summary-Summarizes :
      (day_name : Option ℕ → String) (ps : List (Position F))
      → Summarizes day_name (closed_of (ordered ps)) (compute_summary day_name ps)
  unfolding compute_summary sum
  compute_summary-Summarizes day_name ps =
      let rows = closed_of (ordered ps) in
      let all = book_all day_name no_tally rows in
      let b = book_all-Booked day_name no_tally rows in
      rw (tally-closed_of day_name no_tally (ordered ps)) (record {
        trades = omega (arith, b.trades);
        total = b.total;
        wins = omega (arith, b.wins);
        losses = omega (arith, b.losses);
        rate =
            win_rate-with_rates all (gains (pnls rows)) (falls (pnls rows)) (omega (arith, b.wins))
              (omega (arith, b.losses));
        tickers = b.tickers;
        days = b.days;
        reasons = b.reasons;
        drawdown = b.drawdown;
      })
