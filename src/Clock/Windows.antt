-- ===== src/Clock/Windows.antt =====
-- src/pkg/utils/time.go: how the three windows lie to one another.
use navier_stocks.Base.{ℕ, ◌≡◌, refl, ◌↔◌, ◌⊎◌, true, false, Option, none, some, arith, ◌≤◌, ◌||◌}
use navier_stocks.Clock.{
  at_clock, is_weekend, time_of_day, is_market_open, is_opening_buffer, is_closing_cutoff,
}

-- The three windows never overlap, whatever the time.
pub windows_disjoint :
    (loc : Option ℕ) (now : ℕ)
    → (is_market_open loc now ≡ true
        → (is_opening_buffer loc now ≡ false) × (is_closing_cutoff loc now ≡ false))
      × (is_opening_buffer loc now ≡ true → is_closing_cutoff loc now ≡ false)
unfolding is_market_open is_opening_buffer is_closing_cutoff
windows_disjoint none now = (λ h. ground arith, λ h. ground arith)
windows_disjoint (some zone) now = (λ h. ground arith, λ h. ground arith)

-- On a weekday the three windows cover the day from 09:15 on, but for the instants 09:15:00 and
-- 09:30:00 themselves, since each comparison with them is strict.
pub uncovered_iff :
    (zone now : ℕ)
    → is_weekend zone now ≡ false
    → ((is_opening_buffer (some zone) now
          || is_market_open (some zone) now
          || is_closing_cutoff (some zone) now)
        ≡ false)
      ↔ ((time_of_day zone now ≤ at_clock 9 15) ⊎ (time_of_day zone now ≡ at_clock 9 30))
unfolding is_market_open is_opening_buffer is_closing_cutoff
uncovered_iff zone now h = (λ e. ground arith, λ e. ground arith)

-- No window is ever open on a weekend, and none where the zone cannot be loaded.
pub weekend_quiet :
    (loc : Option ℕ) (now : ℕ)
    → ((zone : ℕ) → loc ≡ some zone → is_weekend zone now ≡ true)
    → (is_opening_buffer loc now || is_market_open loc now || is_closing_cutoff loc now) ≡ false
unfolding is_market_open is_opening_buffer is_closing_cutoff
weekend_quiet none now h = ground arith
weekend_quiet (some zone) now h = ground (arith, h zone refl)
