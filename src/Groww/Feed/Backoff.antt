-- ===== src/Groww/Feed/Backoff.antt =====
-- src/pkg/groww/feed.go: which attempts `Reconnect` makes, how long it sleeps between them, and what
-- it returns.
use mathlib.Core.Path.{subst}
use navier_stocks.Base.{
  ℕ, zero, suc, ◌+◌, ◌*◌, ◌^◌, ◌≤◌, ◌≡◌, refl, sym, ap, ◌∙◌, ◌⊎◌, inl, inr, All, Bool, true, false,
  Option, none, some, List, [], ◌∷◌, String, arith, ltb, if◌then◌else◌, Option-cases, ◌<◌,
}
use navier_stocks.Groww.Feed.{
  FeedClient, gave_up, first_backoff, max_backoff, next_backoff, attempted, connect, reconnect_from,
  reconnect,
}

-- The sleep after attempt `i`: 100 milliseconds, doubled `i` times, and 30 seconds at most.
abbrev pub delay : ℕ → ℕ
delay i = if ltb max_backoff (first_backoff * 2 ^ i) then max_backoff else first_backoff * 2 ^ i

next_backoff-delay : (i : ℕ) → next_backoff (delay i) ≡ delay (suc i)
next_backoff-delay i =
    let doubled : first_backoff * 2 ^ suc i ≡ first_backoff * 2 ^ i * 2 = omega arith in
    ground (arith, doubled)

delay_short : (i : ℕ) → delay i ≤ max_backoff
delay_short i = ground arith

-- How many attempts fail before the first that succeeds, of `left` attempts from `i` on.
abbrev counted : Option String → ℕ → ℕ
counted none rest = zero
counted (some message) rest = suc rest

unfoldable pub failures : (ℕ → Option String) → ℕ → ℕ → ℕ
failures dial i zero = zero
failures dial i (suc left) = counted (dial i) (failures dial (suc i) left)

-- Attempt `i` fails.
abbrev pub Fails : (ℕ → Option String) → ℕ → Type 0
Fails dial i = (message : String) × (dial i ≡ some message)

-- The attempts that are counted are failures.
failures-Fails :
    (dial : ℕ → Option String) (i left k : ℕ) → k < failures dial i left → Fails dial (i + k)
unfolding failures
failures-Fails dial i zero k h = absurd (omega (arith, h))
failures-Fails dial i (suc left) zero h = elim (Option-cases (dial i)) [
  | inl connected ↦ absurd (ground (arith, h, connected))
  | inr (message, e) ↦ let here : i + 0 ≡ i = omega arith in (message, ap dial here ∙ e)
]
failures-Fails dial i (suc left) (suc k) h = elim (Option-cases (dial i)) [
  | inl connected ↦ absurd (ground (arith, h, connected))
  | inr (message, e) ↦
      let there : suc i + k ≡ i + suc k = omega arith in
      subst (Fails dial) there (failures-Fails dial (suc i) left k (ground (arith, h, e)))
]

unfoldable pub delays : ℕ → ℕ → List ℕ
delays i zero = []
delays i (suc n) = delay i ∷ delays (suc i) n

delays_short : (i n : ℕ) → All (λ d. d ≤ max_backoff) (delays i n)
unfolding delays
delays_short i zero = tt
delays_short i (suc n) = (delay_short i, delays_short (suc i) n)

module _ {F : Type 0} where
  -- After `n` failures: connected by the attempt after them, or given up with none left.
  abbrev pub IsOutcome :
      (ℕ → Option String) → ℕ → ℕ → ℕ → FeedClient F → Bool → FeedClient F → Type 0
  IsOutcome dial i left n f done f' =
      ((done ≡ true)
        × (f' ≡ record f { has_conn = true; connected = true })
        × (dial (i + n) ≡ none)
        × (n < left))
      ⊎ ((done ≡ false) × (f' ≡ f) × (n ≡ left))

  record IsLoop (dial : ℕ → Option String) (i left n : ℕ) (f : FeedClient F)
      (r : Bool × FeedClient F × List ℕ) : Type 0 where
    slept : r.2 ≡ delays i n
    outcome : IsOutcome dial i left n f r.0 r.1

  attempted-IsLoop :
      (dial : ℕ → Option String) (i left n : ℕ) (f : FeedClient F) (answer : Option String)
      (rest : Bool × FeedClient F × List ℕ)
      → dial i ≡ answer
      → IsLoop dial (suc i) left n f rest
      → IsLoop dial i (suc left) (counted answer n) f (attempted answer (delay i) f rest)
  unfolding connect delays
  attempted-IsLoop dial i left n f none rest e loop =
      let here : i + 0 ≡ i = omega arith in
      record { slept = refl; outcome = inl (refl, refl, ap dial here ∙ e, omega arith) }
  attempted-IsLoop dial i left n f (some message) rest e loop =
      let there : i + suc n ≡ suc i + n = omega arith in
      record {
        slept = ap (λ sleeps. delay i ∷ sleeps) loop.slept;
        outcome = elim loop.outcome [
          | inl (done, same, answered, before) ↦
              inl (done, same, ap dial there ∙ answered, omega (arith, before))
          | inr (done, same, all) ↦ inr (done, same, ap suc all)
        ];
      }

  reconnect_from-IsLoop :
      (dial : ℕ → Option String) (i left backoff : ℕ) (f : FeedClient F)
      → backoff ≡ delay i
      → IsLoop dial i left (failures dial i left) f (reconnect_from dial i left backoff f)
  unfolding reconnect_from failures delays
  reconnect_from-IsLoop dial i zero backoff f e = record {
    slept = refl;
    outcome = inr (refl, refl, refl);
  }
  reconnect_from-IsLoop dial i (suc left) backoff f e = rw e (
      attempted-IsLoop dial i left (failures dial (suc i) left) f (dial i) _ refl
        (reconnect_from-IsLoop dial (suc i) left (next_backoff (delay i)) f (next_backoff-delay i)))

  -- What `Reconnect` answers: every attempt before the one numbered `tried` fails, and that one
  -- connects, or there is none left.
  pub record Reconnected (dial : ℕ → Option String) (max_retries : ℕ) (f : FeedClient F)
      (r : Option String × FeedClient F × List ℕ) : Type 0 where
    pub tried : ℕ
    pub failed : (i : ℕ) → i < tried → Fails dial i
    pub slept : r.2 ≡ delays 0 tried
    pub short : All (λ d. d ≤ max_backoff) r.2
    pub outcome :
        ((r.0 ≡ none)
          × (r.1 ≡ record f { has_conn = true; connected = true })
          × (dial tried ≡ none)
          × (tried < max_retries))
        ⊎ ((message : String) × (r.0 ≡ some message) × (r.1 ≡ f) × (tried ≡ max_retries))

  -- `Reconnect` sleeps 100 milliseconds after the first attempt that fails, twice as long after each
  -- next one, and 30 seconds at most. If one of its attempts succeeds, it returns connected at the
  -- first that does, every attempt before it having failed; it returns an error, with the client as it
  -- was, exactly after all of its `max_retries` attempts have failed.
  pub reconnect-Reconnected :
      (dial : ℕ → Option String) (max_retries : ℕ) (f : FeedClient F)
      → Reconnected dial max_retries f (reconnect dial max_retries f)
  unfolding reconnect
  reconnect-Reconnected dial max_retries f =
      let loop = reconnect_from-IsLoop dial 0 max_retries first_backoff f (omega arith) in
      let start : 0 + failures dial 0 max_retries ≡ failures dial 0 max_retries = omega arith in
      record {
        tried = failures dial 0 max_retries;
        failed = λ i h.
            let same : 0 + i ≡ i = omega arith in
            subst (Fails dial) same (failures-Fails dial 0 max_retries i h);
        slept = loop.slept;
        short = rw loop.slept (delays_short 0 (failures dial 0 max_retries));
        outcome = elim loop.outcome [
          | inl (done, same, answered, before) ↦
              inl (simp done refl, same, ap dial (sym start) ∙ answered, before)
          | inr (done, same, all) ↦ inr (gave_up max_retries, simp done refl, same, all)
        ];
      }
