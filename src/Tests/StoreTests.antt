-- ===== src/Tests/StoreTests.antt =====
-- The clock, the payloads and the tables at concrete inputs.
use navier_stocks.Base.{ℕ, ◌≡◌, ◌≤◌, ◌↔◌, ◌⊎◌, ◌||◌, refl, arith, true, false, none, [], ◌∷◌}
use navier_stocks.Float.Fixed.{Fixed, fixed_float}
use navier_stocks.Models.{Position, reason_stop_loss}
use navier_stocks.Clock.{
  ist, at_clock, is_market_open, is_opening_buffer, is_closing_cutoff, is_weekend, weekday, day_of,
  time_of_day,
}
use navier_stocks.Clock.Windows.{uncovered_iff, weekend_quiet}
use navier_stocks.Database.{done}
use navier_stocks.Database.Positions.{Table, mark_closed, close_row}
use navier_stocks.Database.Positions.Lifecycle.{IsTable, mark_closed-IsTable}
use navier_stocks.Tests.Fixtures.{
  amount, tcs_long, ongc_short, two_rows, two_rows-IsTable, eleven, india,
}

uncovered_iff_example :
    ((is_opening_buffer india eleven
        || is_market_open india eleven
        || is_closing_cutoff india eleven)
      ≡ false)
    ↔ ((time_of_day ist eleven ≤ at_clock 9 15) ⊎ (time_of_day ist eleven ≡ at_clock 9 30))
unfolding is_weekend weekday day_of
uncovered_iff_example = uncovered_iff ist eleven refl

-- Two days later it is a Saturday.
abbrev saturday : ℕ
saturday = 192_600_000_000_000

saturday_run : is_weekend ist saturday ≡ true
unfolding is_weekend weekday day_of
saturday_run = refl

weekend_quiet_example :
    (is_opening_buffer india saturday
      || is_market_open india saturday
      || is_closing_cutoff india saturday)
    ≡ false
weekend_quiet_example =
    weekend_quiet india saturday (λ zone same. ground (arith, same, saturday_run))

abbrev fresh_row : Position Fixed
fresh_row = record tcs_long { id = 0; execution_ref = "risk-TCS-3" }

abbrev stopped : Table Fixed
stopped = record two_rows {
  rows = ongc_short ∷ close_row (amount 900_000) reason_stop_loss eleven tcs_long ∷ [];
}

closing_run : mark_closed none 1 (amount 900_000) reason_stop_loss eleven two_rows ≡ done stopped
unfolding mark_closed
closing_run = refl

mark_closed-IsTable_example : IsTable stopped
mark_closed-IsTable_example =
    mark_closed-IsTable 1 (amount 900_000) reason_stop_loss eleven two_rows stopped two_rows-IsTable
      closing_run
