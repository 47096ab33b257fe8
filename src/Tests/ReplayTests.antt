-- ===== src/Tests/ReplayTests.antt =====
-- The replay engine at concrete inputs.
use navier_stocks.Base.{◌≡◌, refl, false, Option, none, some, List, [], ◌∷◌, if◌then◌else◌}
use navier_stocks.Base.Int.{pos, wrap64}
use navier_stocks.Base.Text.{str_eq}
use navier_stocks.Float.Fixed.{Fixed, fixed_float}
use navier_stocks.Models.{PriceTick}
use navier_stocks.Replay.{ReplayError, Publisher, sort_ticks, decoded, plan, run}
use navier_stocks.Tests.Fixtures.{amount}

abbrev early : PriceTick Fixed
early = record { ticker = "TCS"; price = amount 1_000_000; ts_in_millis = pos 1_000 }

abbrev late : PriceTick Fixed
late = record { ticker = "ONGC"; price = amount 2_000_000; ts_in_millis = pos 3_000 }

-- An archive out of order, with a malformed line.
abbrev archive : List (Option (PriceTick Fixed))
archive = some late ∷ none ∷ some early ∷ []

sorted : sort_ticks (decoded archive) ≡ early ∷ late ∷ []
unfolding sort_ticks
sorted = refl

-- A publisher that is down for ONGC.
abbrev publisher : Publisher Fixed
publisher subject t = if str_eq t.ticker "ONGC" then some "down" else none

-- One tick goes out, and the second one ends the run.
run_down :
    run publisher (λ n. false) (plan (early ∷ late ∷ []) (amount 20_000))
    ≡ (1, some (ReplayError.publish_failed "down"), ("signal.price.TCS", early) ∷ [])
unfolding run plan fixed_float wrap64
run_down = refl
