-- ===== src/Scout/Indicators/Agreement.antt =====
-- src/analysts/quantitative/indicators: two ways to one result.
use navier_stocks.Base.{
  ℕ, zero, suc, ◌+◌, ◌-◌, ◌<◌, ◌≡◌, refl, ap, ◌∙◌, sym, inl, inr, false, Option, none, some, List,
  [], ◌∷◌, arith, length, if◌then◌else◌, take, drop, length-drop, Bool-cases,
}
use navier_stocks.Base.Int.{ℤ, pos, pos_part, ltb_ℤ}
use navier_stocks.Float.{Float64}
use navier_stocks.Scout.TickStore.Slices.{take_all}
use navier_stocks.Scout.Indicators.{
  bands_of, bands_from, too_short, bollinger_bands, bollinger_bands_series, CumulativeVwap, vwap,
  vwap_sums, new_cumulative_vwap, value, add,
}

module _ {A : Type 0} where
  -- The last element, if there is one.
  abbrev pub last_of : List A → Option A
  last_of [] = none
  last_of (x ∷ []) = some x
  last_of (x ∷ y ∷ xs) = last_of (y ∷ xs)

module _ {F : Type 0} ⦃fl : Float64 F⦄ where
  length-bands_from :
      (prices : List F) (period i rounds : ℕ) (multiplier : F)
      → length (bands_from prices period multiplier i rounds) ≡ rounds
  length-bands_from prices period i zero multiplier = refl
  length-bands_from prices period i (suc rounds) multiplier =
      ap suc (length-bands_from prices period (suc i) rounds multiplier)

  last_of-bands_from :
      (prices : List F) (period i rounds : ℕ) (multiplier : F)
      → last_of (bands_from prices period multiplier i (suc rounds))
        ≡ some (bands_of multiplier (take period (drop (i + rounds) prices)))
  last_of-bands_from prices period i zero multiplier =
      ap (λ k. some (bands_of multiplier (take period (drop k prices)))) (omega arith)
  last_of-bands_from prices period i (suc rounds) multiplier =
      last_of-bands_from prices period (suc i) rounds multiplier
      ∙ ap (λ k. some (bands_of multiplier (take period (drop k prices)))) (omega arith)

  series-eq :
      (prices : List F) (period : ℤ) (multiplier : F)
      → too_short prices period ≡ false
      → bollinger_bands_series prices period multiplier
        ≡ bands_from prices (pos_part period) multiplier 0 (suc (length prices - pos_part period))
  unfolding bollinger_bands_series
  series-eq prices period multiplier long = rw long (
      ap (bands_from prices (pos_part period) multiplier 0)
        {y = suc (length prices - pos_part period)} (omega arith))

  bands-eq :
      (prices : List F) (period : ℤ) (multiplier : F)
      → too_short prices period ≡ false
      → bollinger_bands prices period multiplier
        ≡ some (bands_of multiplier (drop (length prices - pos_part period) prices))
  unfolding bollinger_bands
  bands-eq prices period multiplier long = rw long refl

  -- The last window is what is left of the prices.
  last_window :
      (prices : List F) (period : ℤ)
      → too_short prices period ≡ false
      → take (pos_part period) (drop (0 + (length prices - pos_part period)) prices)
        ≡ drop (length prices - pos_part period) prices
  last_window prices period long =
      let k = length prices - pos_part period in
      ap (λ i. take (pos_part period) (drop i prices)) {x = 0 + k} {y = k} (omega arith)
      ∙ take_all (drop k prices) (pos_part period) (ground (arith, length-drop k prices, long))

  -- `BollingerBandsSeries` has a band for each window, none if there is none, and its last band is the
  -- answer of `BollingerBands` for the same prices.
  pub last_of-bollinger_bands_series :
      (prices : List F) (period : ℤ) (multiplier : F)
      → (last_of (bollinger_bands_series prices period multiplier)
          ≡ bollinger_bands prices period multiplier)
        × (length (bollinger_bands_series prices period multiplier)
            ≡ (if ltb_ℤ period (pos 2) then 0 else length prices + 1 - pos_part period))
  unfolding bollinger_bands bollinger_bands_series
  last_of-bollinger_bands_series prices period multiplier =
      elim (Bool-cases (too_short prices period)) [
        | inl short ↦ rw short (refl, ground (arith, short))
        | inr long ↦ (
          ap last_of (series-eq prices period multiplier long)
              ∙ last_of-bands_from prices (pos_part period) 0 (length prices - pos_part period)
                  multiplier
              ∙ ap (λ w. some (bands_of multiplier w)) (last_window prices period long)
              ∙ sym (bands-eq prices period multiplier long),
          ap length (series-eq prices period multiplier long)
              ∙ length-bands_from prices (pos_part period) 0 (suc (length prices - pos_part period))
                  multiplier
              ∙ ground (arith, long),
        )
      ]

  -- The observations of a session, added one after another.
  abbrev pub add_all : CumulativeVwap F → List F → List ℤ → CumulativeVwap F
  add_all cv [] volumes = cv
  add_all cv (p ∷ prices) [] = cv
  add_all cv (p ∷ prices) (i ∷ volumes) = add_all (add p i cv) prices volumes

  add_all-eq-sums :
      (cv : CumulativeVwap F) (prices : List F) (volumes : List ℤ)
      → let sums = vwap_sums cv.pv_sum cv.v_sum prices volumes in
        add_all cv prices volumes ≡ record { pv_sum = sums.0; v_sum = sums.1 }
  unfolding add
  add_all-eq-sums cv [] volumes = refl
  add_all-eq-sums cv (p ∷ prices) [] = refl
  add_all-eq-sums cv (p ∷ prices) (i ∷ volumes) = add_all-eq-sums (add p i cv) prices volumes

  -- The cumulative average of a session is the average that `VWAP` computes from all of its
  -- observations at once, to the last bit.
  pub value-add_all :
      (prices : List F) (volumes : List ℤ)
      → 0 < length prices
      → length prices ≡ length volumes
      → value (add_all new_cumulative_vwap prices volumes) ≡ (vwap prices volumes).vwap
  unfolding value vwap new_cumulative_vwap
  value-add_all prices volumes h k =
      rw (add_all-eq-sums new_cumulative_vwap prices volumes) (ground (arith, h, k))
