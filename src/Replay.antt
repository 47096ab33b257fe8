-- ===== src/Replay.antt =====
-- src/pkg/replay/engine.go: the archived ticks of a day, sorted, scheduled and published again. A
-- file is its bytes; what JSON makes of a line, `none` for a malformed one, is an argument.
pub mod Order
pub mod Runs
use navier_stocks.Base.{
  ℕ, suc, ◌+◌, ◌&&◌, Bool, true, false, Option, none, some, List, [], ◌∷◌, String, if◌then◌else◌,
  map,
}
use navier_stocks.Base.Scan.{Bytes, scan_lines, scan_from, drop_cr}
use navier_stocks.Base.Int.{ℤ, pos, ◌-ℤ◌, ltb_ℤ, wrap64}
use navier_stocks.Base.Text.{concat}
use navier_stocks.Float.{Float64, nought}
use navier_stocks.Models.{PriceTick}

-- `Step`; the delay is in nanoseconds.
pub record Step (F : Type 0) : Type 0 where
  pub tick : PriceTick F
  pub delay : ℤ

-- The errors of `LoadTicks` and `Run`, with the text of what they wrap.
pub data ReplayError : Type 0 where
  open_failed scan_failed publish_failed : String → ReplayError
  cancelled : ReplayError

-- `PriceSubject`
abbrev pub price_subject : String → String
price_subject ticker = concat "signal.price." ticker

-- What the publisher answers for a subject and a tick: the text of the error of json.Marshal or of
-- `Publish`, or `none`.
abbrev pub Publisher : Type 0 → Type 0
Publisher F = String → PriceTick F → Option String

-- What the two results of `LoadTicks` are.
pub data Loaded (F : Type 0) : Type 0 where
  ticks : List (PriceTick F) → Loaded F
  failed : ReplayError → Loaded F

module _ {F : Type 0} where
  -- The well-formed lines.
  abbrev pub decoded : List (Option (PriceTick F)) → List (PriceTick F)
  decoded [] = []
  decoded (none ∷ lines) = decoded lines
  decoded (some t ∷ lines) = t ∷ decoded lines

  -- `sort.SliceStable` by the timestamp: a stable sort by insertion.
  abbrev pub insert_tick : PriceTick F → List (PriceTick F) → List (PriceTick F)
  insert_tick t [] = t ∷ []
  insert_tick t (u ∷ us) =
      if ltb_ℤ u.ts_in_millis t.ts_in_millis then u ∷ insert_tick t us else t ∷ u ∷ us

  unfoldable pub sort_ticks : List (PriceTick F) → List (PriceTick F)
  sort_ticks [] = []
  sort_ticks (t ∷ ts) = insert_tick t (sort_ticks ts)

  -- `LoadTicks`, with the error of the opening and of the scanner.
  unfoldable pub load_ticks :
      (Bytes → Option (PriceTick F)) → Option String → Option String → Bytes → Loaded F
  unfolding sort_ticks scan_from drop_cr
  load_ticks decode (some message) scan text = failed (ReplayError.open_failed message)
  load_ticks decode none (some message) text = failed (ReplayError.scan_failed message)
  load_ticks decode none none text = ticks (sort_ticks (decoded (map decode (scan_lines text))))

module _ {F : Type 0} ⦃fl : Float64 F⦄ where
  -- `time.Duration(float64(gap) / speed * float64(time.Millisecond))`
  abbrev scaled : F → ℤ → ℤ
  scaled speed gap = fl.to_int (fl.mul (fl.div (fl.of_int gap) speed) (fl.of_int (pos 1_000_000)))

  -- The delay of a tick after the one at `prev`, if there is one.
  abbrev pub delay_after : F → Option ℤ → PriceTick F → ℤ
  delay_after speed none t = pos 0
  delay_after speed (some prev) t =
      let gap = wrap64 (t.ts_in_millis -ℤ prev) in
      if fl.lt nought speed && ltb_ℤ (pos 0) gap then scaled speed gap else pos 0

  abbrev pub plan_from : F → Option ℤ → List (PriceTick F) → List (Step F)
  plan_from speed prev [] = []
  plan_from speed prev (t ∷ ts) =
      record { tick = t; delay = delay_after speed prev t }
      ∷ plan_from speed (some t.ts_in_millis) ts

  -- `Plan`
  unfoldable pub plan : List (PriceTick F) → F → List (Step F)
  plan ts speed = plan_from speed none ts

module _ {F : Type 0} where
  -- Whether the wait before a step ends by the cancellation of the context, which only a step with a
  -- delay asks for; `done` says which of the waits do.
  abbrev pub is_cancelled : (ℕ → Bool) → ℕ → Step F → Bool
  is_cancelled done n step = ltb_ℤ (pos 0) step.delay && done n

  abbrev after_publish :
      ℕ
      → List (String × PriceTick F)
      → ℕ × Option ReplayError × List (String × PriceTick F)
      → Option String
      → ℕ × Option ReplayError × List (String × PriceTick F)
  after_publish n sent rest (some message) = (n, some (ReplayError.publish_failed message), sent)
  after_publish n sent rest none = rest

  -- The loop of `Run`, after `n` published ticks, with what was sent so far, newest first.
  unfoldable pub run_from :
      Publisher F
      → (ℕ → Bool)
      → ℕ
      → List (String × PriceTick F)
      → List (Step F)
      → ℕ × Option ReplayError × List (String × PriceTick F)
  run_from publish done n sent [] = (n, none, sent)
  run_from publish done n sent (step ∷ steps) =
      let subject = price_subject step.tick.ticker in
      let rest = run_from publish done (suc n) ((subject, step.tick) ∷ sent) steps in
      if is_cancelled done n step
      then (n, some ReplayError.cancelled, sent)
      else after_publish n sent rest (publish subject step.tick)

  -- `(*Engine).Run`
  unfoldable pub run :
      Publisher F
      → (ℕ → Bool)
      → List (Step F)
      → ℕ × Option ReplayError × List (String × PriceTick F)
  unfolding run_from
  run publish done steps = run_from publish done 0 [] steps
