-- ===== src/Tests/ReportTests.antt =====
-- The performance summary at concrete inputs.
use mathlib.Core.List.{Memᴰ, Permᴰ}
use navier_stocks.Base.{ℕ, ◌≡◌, refl, sym, ◌∙◌, ap, Option, none, some, [], ◌∷◌, String, arith}
use navier_stocks.Base.Int.{negsuc}
use navier_stocks.Float.Fixed.{Fixed, fixed_float}
use navier_stocks.Models.{Position, PositionStatus}
use navier_stocks.Report.{ordered, tally, compute_summary}
use navier_stocks.Report.Totals.{closed_of, Summarizes, compute_summary-Summarizes}
use navier_stocks.Report.AnyOrder.{IsUntied, compute_summary_any_order}
use navier_stocks.Tests.Fixtures.{amount, tcs_long, ongc_short}

abbrev gained : Position Fixed
gained = record tcs_long {
  status = PositionStatus.closed;
  pnl = amount 500_000;
  exit_reason = "take_profit";
  closed_at = some 10;
}

abbrev lost : Position Fixed
lost = record ongc_short {
  status = PositionStatus.closed;
  pnl = record { units = negsuc 199_999 };
  exit_reason = "stop_loss";
  closed_at = some 20;
}

abbrev one_day : Option ℕ → String
one_day t = "1970-01-01"

compute_summary-Summarizes_example :
    Summarizes one_day
      (closed_of (ordered (lost ∷ tcs_long ∷ gained ∷ [])))
      (compute_summary one_day (lost ∷ tcs_long ∷ gained ∷ []))
compute_summary-Summarizes_example =
    compute_summary-Summarizes one_day (lost ∷ tcs_long ∷ gained ∷ [])

drawdown_run :
    (compute_summary one_day (lost ∷ tcs_long ∷ gained ∷ [])).max_drawdown ≡ amount 200_000
unfolding compute_summary ordered tally fixed_float
drawdown_run = refl

abbrev closing_of : Position Fixed → ℕ
closing_of p = elim p.closed_at [ none ↦ 0 | some n ↦ n ]

apart : (p q : Position Fixed) → p ≡ lost → q ≡ gained → p.closed_at ≡ q.closed_at → p ≡ q
apart p q i j e = absurd (
    omega (
      arith,
      sym (ap closing_of i) ∙ ap (λ o. elim o [ none ↦ 0 | some n ↦ n ]) e ∙ ap closing_of j,
    ))

untied : IsUntied (lost ∷ gained ∷ [])
untied p q (Memᴰ.head i) (Memᴰ.head j) e = i ∙ sym j
untied p q (Memᴰ.tail (Memᴰ.head i)) (Memᴰ.tail (Memᴰ.head j)) e = i ∙ sym j
untied p q (Memᴰ.head i) (Memᴰ.tail (Memᴰ.head j)) e = apart p q i j e
untied p q (Memᴰ.tail (Memᴰ.head i)) (Memᴰ.head j) e = sym (apart q p j i (sym e))
untied p q (Memᴰ.head i) (Memᴰ.tail (Memᴰ.tail m)) e = elim m [ ]
untied p q (Memᴰ.tail (Memᴰ.head i)) (Memᴰ.tail (Memᴰ.tail m)) e = elim m [ ]
untied p q (Memᴰ.tail (Memᴰ.tail m)) j e = elim m [ ]

compute_summary_any_order_example :
    compute_summary one_day (lost ∷ gained ∷ []) ≡ compute_summary one_day (gained ∷ lost ∷ [])
compute_summary_any_order_example =
    compute_summary_any_order one_day (lost ∷ gained ∷ []) (gained ∷ lost ∷ [])
      (Permᴰ.swap refl refl) untied
