-- ===== src/Groww/Limiter.antt =====
-- src/pkg/groww/client.go: the token bucket of the client. Go's clock is monotonic, so no time is
-- before the last one; `woken` is what the clock reads after a sleep.
pub mod Burst
use navier_stocks.Base.{ℕ, zero, suc, ◌-◌, ◌/◌, ◌%◌, Option, none, some, if◌then◌else◌}
use navier_stocks.Base.Int.{ℤ, pos}
use navier_stocks.Float.{Float64}

-- `rateLimiter`, without its lock
pub record RateLimiter (F : Type 0) : Type 0 where
  pub tokens : F
  pub max_rate : F
  pub last_tick : ℕ

abbrev pub second : ℕ
second = 1_000_000_000

module _ {F : Type 0} ⦃fl : Float64 F⦄ where
  -- `newRateLimiter`
  unfoldable pub new_rate_limiter : F → ℕ → RateLimiter F
  new_rate_limiter per_sec now = record { tokens = per_sec; max_rate = per_sec; last_tick = now }

  -- `(time.Duration).Seconds`
  abbrev pub seconds : ℕ → F
  seconds d =
      fl.add (fl.of_int (pos (d / second)))
        (fl.div (fl.of_int (pos (d % second))) (fl.of_int (pos second)))

  abbrev pub at_most : F → F → F
  at_most m x = if fl.lt m x then m else x

  -- The tokens at the time `now`, before one is taken.
  abbrev pub refilled : ℕ → RateLimiter F → F
  refilled now rl =
      at_most rl.max_rate (fl.add rl.tokens (fl.mul (seconds (now - rl.last_tick)) rl.max_rate))

  abbrev pub one : F
  one = fl.of_int (pos 1)

  -- `(*rateLimiter).Wait`: the length of the sleep in nanoseconds, if there is one.
  unfoldable pub wait : ℕ → ℕ → RateLimiter F → Option ℤ × RateLimiter F
  wait now woken rl =
      let tokens = refilled now rl in
      if fl.lt tokens one
      then (
        some (fl.to_int (fl.mul (fl.div (fl.sub one tokens) rl.max_rate) (fl.of_int (pos second)))),
        record rl { tokens = fl.sub rl.max_rate one; last_tick = woken },
      )
      else (none, record rl { tokens = fl.sub tokens one; last_tick = now })
