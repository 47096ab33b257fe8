-- ===== src/Clock.antt =====
-- src/pkg/utils/time.go: the guards on Indian market time. A `time.Time` is its nanoseconds since
-- the Unix epoch in UTC. `time.LoadLocation("Asia/Kolkata")` answers with the zone's offset from UTC
-- (it has no daylight saving), or with `none` where the zone cannot be loaded.
pub mod Windows
use navier_stocks.Base.{
  ℕ, ◌+◌, ◌*◌, ◌/◌, ◌%◌, Bool, true, false, not, ◌&&◌, ◌||◌, Option, none, some, ltb, ◌==◌,
  if◌then◌else◌,
}

abbrev pub minute : ℕ
minute = 60 * 1_000_000_000

abbrev pub day_length : ℕ
day_length = 1440 * minute

-- UTC+05:30
abbrev pub ist : ℕ
ist = 330 * minute

-- `t.In(loc)`: the day's number since the epoch, its weekday (Sunday is 0; the epoch was a
-- Thursday), and the time of day.
unfoldable pub day_of : ℕ → ℕ → ℕ
day_of zone t = (t + zone) / day_length

unfoldable pub weekday : ℕ → ℕ → ℕ
unfolding day_of
weekday zone t = (day_of zone t + 4) % 7

unfoldable pub time_of_day : ℕ → ℕ → ℕ
time_of_day zone t = (t + zone) % day_length

-- `time.Date(now.Year(), now.Month(), now.Day(), h, m, 0, 0, loc)` on the clock of `now`.
abbrev pub at_clock : ℕ → ℕ → ℕ
at_clock h m = (h * 60 + m) * minute

unfoldable pub is_weekend : ℕ → ℕ → Bool
unfolding weekday
is_weekend zone t = weekday zone t == 6 || weekday zone t == 0

abbrev pub after : ℕ → ℕ → Bool
after a b = ltb b a

abbrev pub before : ℕ → ℕ → Bool
before a b = ltb a b

-- The part of a guard below the loading of the zone: false on weekends.
abbrev on_weekday : Option ℕ → ℕ → (ℕ → Bool) → Bool
on_weekday none now test = false
on_weekday (some zone) now test = if is_weekend zone now then false else test (time_of_day zone now)

unfoldable pub is_market_open : Option ℕ → ℕ → Bool
unfolding is_weekend time_of_day
is_market_open loc now =
    on_weekday loc now (λ clock. after clock (at_clock 9 30) && before clock (at_clock 15 0))

unfoldable pub is_opening_buffer : Option ℕ → ℕ → Bool
unfolding is_weekend time_of_day
is_opening_buffer loc now =
    on_weekday loc now (λ clock. after clock (at_clock 9 15) && before clock (at_clock 9 30))

unfoldable pub is_closing_cutoff : Option ℕ → ℕ → Bool
unfolding is_weekend time_of_day
is_closing_cutoff loc now = on_weekday loc now (λ clock. not (before clock (at_clock 15 0)))
