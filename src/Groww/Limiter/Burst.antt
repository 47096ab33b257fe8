-- ===== src/Groww/Limiter/Burst.antt =====
-- src/pkg/groww/client.go: what the token bucket lets through after a sleep.
use navier_stocks.Base.{
  ℕ, zero, suc, ◌+◌, ◌-◌, ◌*◌, ◌^◌, ◌≤◌, ◌<◌, ◌≡◌, refl, ap, ◌∙◌, Bool, true, false, Option, none,
  some, arith, ltb,
}
use navier_stocks.Base.Int.{ℤ, pos}
use navier_stocks.Float.{Float64, IsExact, IsCounting}
use navier_stocks.Groww.Limiter.{RateLimiter, second, seconds, refilled, one, wait}

module _ {F : Type 0} ⦃fl : Float64 F⦄ where
  -- A bucket with `n` of `r` tokens.
  abbrev pub bucket : ℕ → ℕ → ℕ → RateLimiter F
  bucket n r now = record {
    tokens = fl.of_int (pos n);
    max_rate = fl.of_int (pos r);
    last_tick = now;
  }

  -- Whether `k` calls at one moment all return without a sleep.
  unfoldable pub all_pass : ℕ → ℕ → RateLimiter F → Bool
  unfolding wait
  all_pass zero now rl = true
  all_pass (suc k) now rl = elim (wait now now rl).0 [
    | none ↦ all_pass k now (wait now now rl).1
    | some d ↦ false
  ]

module _ {F : Type 0} ⦃fl : Float64 F⦄ (exact : IsExact F) (counting : IsCounting F) where
  mul-zero : (r : ℕ) → fl.mul (fl.of_int (pos 0)) (fl.of_int (pos r)) ≡ fl.of_int (pos 0)
  mul-zero r =
      let z : 0 * r ≡ 0 = omega arith in
      exact.mul-of_int 0 r (omega arith) ∙ ap (λ k. fl.of_int (pos k)) z

  seconds-zero : seconds 0 ≡ fl.of_int (pos 0)
  seconds-zero =
      ap (fl.add (fl.of_int (pos 0))) (counting.div-zero second (omega arith) (omega arith))
      ∙ counting.add-of_int 0 0 (omega arith)

  refilled-bucket :
      (n r now : ℕ) → n ≤ r → r < 2 ^ 53 → refilled now (bucket n r now) ≡ fl.of_int (pos n)
  refilled-bucket n r now h b =
      let z : now - now ≡ 0 = omega arith in
      let same : n + 0 ≡ n = omega arith in
      let fits : ltb r n ≡ false = ground arith in
      rw
        (
          z,
          seconds-zero,
          mul-zero r,
          counting.add-of_int n 0 (omega arith),
          same,
          exact.lt-of_int r n b (omega arith),
          fits,
        )
        refl

  wait-bucket :
      (n r now : ℕ)
      → n < r
      → r < 2 ^ 53
      → wait {F = F} now now (bucket (suc n) r now) ≡ (none, bucket n r now)
  unfolding wait
  wait-bucket n r now h b =
      let some_left : ltb (suc n) 1 ≡ false = ground arith in
      let fewer : suc n - 1 ≡ n = omega arith in
      rw
        (
          refilled-bucket (suc n) r now (omega arith) b,
          exact.lt-of_int (suc n) 1 (omega arith) (omega arith),
          some_left,
          counting.sub-of_int (suc n) 1 (omega arith) (omega arith),
          fewer,
        )
        refl

  all_pass-bucket :
      (k n r now : ℕ) → k ≤ n → n ≤ r → r < 2 ^ 53 → all_pass {F = F} k now (bucket n r now) ≡ true
  unfolding all_pass
  all_pass-bucket zero n r now h m b = refl
  all_pass-bucket (suc k) zero r now h m b = absurd (omega (arith, h))
  all_pass-bucket (suc k) (suc n) r now h m b =
      ap (λ (w : Option ℤ × RateLimiter F). elim w.0 [ none ↦ all_pass k now w.1 | some d ↦ false ])
        (wait-bucket n r now (omega arith) b)
      ∙ all_pass-bucket k n r now (omega arith) (omega arith) b

  -- At a rate of a whole number below 2^53, and if sums and products of whole numbers are exact, a
  -- call that has to sleep leaves a full bucket but for one token, however short the sleep was: at
  -- the moment it wakes, all but one of the requests of a whole second pass at once.
  pub wait_burst :
      (r now woken : ℕ) (rl : RateLimiter F)
      → rl.max_rate ≡ fl.of_int (pos r)
      → 0 < r
      → r < 2 ^ 53
      → fl.lt (refilled now rl) one ≡ true
      → all_pass (r - 1) woken (wait now woken rl).1 ≡ true
  unfolding wait
  wait_burst r now woken rl rate h b low =
      rw (low, rate, counting.sub-of_int r 1 (omega arith) b)
        (all_pass-bucket (r - 1) (r - 1) r woken (omega arith) (omega arith) b)
