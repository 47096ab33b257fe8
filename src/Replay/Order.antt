-- ===== src/Replay/Order.antt =====
-- src/pkg/replay/engine.go: the order in which an archive is replayed.
use navier_stocks.Base.{
  ◌≡◌, refl, ap, ◌∙◌, inl, inr, Bool, true, false, Option, none, some, List, [], ◌∷◌, arith,
  if◌then◌else◌, Bool-cases, ◌&&◌, ◌||◌, All, map,
}
use navier_stocks.Base.Scan.{Bytes, scan_lines}
use navier_stocks.Base.Int.{ℤ, pos, ltb_ℤ, leb_ℤ, eqb_ℤ}
use navier_stocks.Float.{Float64, nought}
use navier_stocks.Models.{PriceTick}
use navier_stocks.Replay.{
  Step, decoded, insert_tick, sort_ticks, ticks, load_ticks, plan, plan_from,
}

module _ {F : Type 0} where
  -- From the time `k` on, no tick is later than the next one.
  abbrev pub IsChronological : ℤ → List (PriceTick F) → Type 0
  IsChronological k [] = Unit {0}
  IsChronological k (t ∷ ts) = (leb_ℤ k t.ts_in_millis ≡ true) × IsChronological t.ts_in_millis ts

  -- The ticks of one millisecond, in their order.
  abbrev pub at_millis : ℤ → List (PriceTick F) → List (PriceTick F)
  at_millis k [] = []
  at_millis k (t ∷ ts) = if eqb_ℤ t.ts_in_millis k then t ∷ at_millis k ts else at_millis k ts

  insert_tick-IsChronological :
      (k : ℤ) (t : PriceTick F) (us : List (PriceTick F))
      → leb_ℤ k t.ts_in_millis ≡ true
      → IsChronological k us
      → IsChronological k (insert_tick t us)
  insert_tick-IsChronological k t [] h c = (h, tt)
  insert_tick-IsChronological k t (u ∷ us) h c =
      elim (Bool-cases (ltb_ℤ u.ts_in_millis t.ts_in_millis)) [
        | inl later ↦
            rw later
              (c.0, insert_tick-IsChronological u.ts_in_millis t us (ground (arith, later)) c.1)
        | inr early ↦ rw early (h, (ground (arith, early), c.1))
      ]

  at_millis-insert_tick :
      (k : ℤ) (t : PriceTick F) (us : List (PriceTick F))
      → at_millis k (insert_tick t us) ≡ at_millis k (t ∷ us)
  at_millis-insert_tick k t [] = refl
  at_millis-insert_tick k t (u ∷ us) = ground (arith, at_millis-insert_tick k t us)

  -- That no tick of a list is before the time `k`.
  abbrev pub IsSince : ℤ → List (PriceTick F) → Type 0
  IsSince k ts = All (λ (t : PriceTick F). leb_ℤ k t.ts_in_millis ≡ true) ts

  sort_ticks-IsChronological :
      (k : ℤ) (ts : List (PriceTick F)) → IsSince k ts → IsChronological k (sort_ticks ts)
  unfolding sort_ticks
  sort_ticks-IsChronological k [] h = tt
  sort_ticks-IsChronological k (t ∷ ts) h =
      insert_tick-IsChronological k t (sort_ticks ts) h.0 (sort_ticks-IsChronological k ts h.1)

  at_millis-sort_ticks :
      (k : ℤ) (ts : List (PriceTick F)) → at_millis k (sort_ticks ts) ≡ at_millis k ts
  unfolding sort_ticks
  at_millis-sort_ticks k [] = refl
  at_millis-sort_ticks k (t ∷ ts) =
      at_millis-insert_tick k t (sort_ticks ts) ∙ ground (arith, at_millis-sort_ticks k ts)

  -- `LoadTicks` sorts the ticks of the lines that decode by their timestamps, from any time on that
  -- is before none of them, and keeps the ticks of each millisecond, all of them, in the order of the
  -- file.
  pub load_ticks_sorts :
      (decode : Bytes → Option (PriceTick F)) (text : Bytes) (k : ℤ)
      → let found = decoded (map decode (scan_lines text)) in
        IsSince k found
        → (load_ticks decode none none text ≡ ticks (sort_ticks found))
          × IsChronological k (sort_ticks found)
          × ((j : ℤ) → at_millis j (sort_ticks found) ≡ at_millis j found)
  unfolding load_ticks
  load_ticks_sorts decode text k h =
      let found = decoded (map decode (scan_lines text)) in
      (refl, sort_ticks-IsChronological k found h, λ j. at_millis-sort_ticks j found)

module _ {F : Type 0} where
  abbrev pub ticks_of : List (Step F) → List (PriceTick F)
  ticks_of [] = []
  ticks_of (step ∷ steps) = step.tick ∷ ticks_of steps

  -- That a schedule starts at once, and that it never waits.
  abbrev pub is_prompt : List (Step F) → Bool
  is_prompt [] = true
  is_prompt (step ∷ steps) = eqb_ℤ step.delay (pos 0)

  abbrev pub is_unpaced : List (Step F) → Bool
  is_unpaced [] = true
  is_unpaced (step ∷ steps) = eqb_ℤ step.delay (pos 0) && is_unpaced steps

module _ {F : Type 0} ⦃fl : Float64 F⦄ where
  ticks_of-plan_from :
      (speed : F) (prev : Option ℤ) (ts : List (PriceTick F))
      → ticks_of (plan_from speed prev ts) ≡ ts
  ticks_of-plan_from speed prev [] = refl
  ticks_of-plan_from speed prev (t ∷ ts) =
      ap (◌∷◌ t) (ticks_of-plan_from speed (some t.ts_in_millis) ts)

  is_unpaced-plan_from :
      (speed : F) (prev : Option ℤ) (ts : List (PriceTick F))
      → fl.lt nought speed ≡ false
      → is_unpaced (plan_from speed prev ts) ≡ true
  is_unpaced-plan_from speed prev [] h = refl
  is_unpaced-plan_from speed none (t ∷ ts) h = is_unpaced-plan_from speed (some t.ts_in_millis) ts h
  is_unpaced-plan_from speed (some k) (t ∷ ts) h =
      rw h (is_unpaced-plan_from speed (some t.ts_in_millis) ts h)

  is_prompt-plan_from :
      (speed : F) (ts : List (PriceTick F)) → is_prompt (plan_from speed none ts) ≡ true
  is_prompt-plan_from speed [] = refl
  is_prompt-plan_from speed (t ∷ ts) = refl

  -- `Plan` schedules every tick once and in order, the first one without a delay, and all of them
  -- without one if the speed is not positive.
  pub plan_keeps :
      (ts : List (PriceTick F)) (speed : F)
      → (ticks_of (plan ts speed) ≡ ts)
        × (is_prompt (plan ts speed) ≡ true)
        × ((fl.lt nought speed || is_unpaced (plan ts speed)) ≡ true)
  unfolding plan
  plan_keeps ts speed = (
    ticks_of-plan_from speed none ts,
    is_prompt-plan_from speed ts,
    elim (Bool-cases (fl.lt nought speed)) [
      | inl paced ↦ rw paced refl
      | inr rushed ↦ rw (rushed, is_unpaced-plan_from speed none ts rushed) refl
    ],
  )
