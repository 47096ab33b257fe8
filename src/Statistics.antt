-- ===== src/Statistics.antt =====
-- src/pkg/math/math.go: sums, means and variances of float64 slices.
use navier_stocks.Base.{
  ◌||◌, not, Option, none, some, List, [], ◌∷◌, ltb, ◌==◌, length, if◌then◌else◌, take, drop,
}
use navier_stocks.Base.Int.{ℤ, pos, pos_part, ltb_ℤ}
use navier_stocks.Float.{Float64, nought}

module _ {F : Type 0} ⦃fl : Float64 F⦄ where
  abbrev pub sum_from : F → List F → F
  sum_from s [] = s
  sum_from s (v ∷ vs) = sum_from (fl.add s v) vs

  -- `Sum`
  unfoldable pub sum : List F → F
  sum vs = sum_from nought vs

  -- `Mean`
  unfoldable pub mean : List F → F
  unfolding sum
  mean vs = if length vs == 0 then nought else fl.div (sum vs) (fl.of_int (pos (length vs)))

  -- The loop of `Variance`, around the mean `m`.
  abbrev squares_from : F → F → List F → F
  squares_from m s [] = s
  squares_from m s (v ∷ vs) = squares_from m (fl.add s (fl.mul (fl.sub v m) (fl.sub v m))) vs

  -- `Variance`
  unfoldable pub variance : List F → F
  unfolding mean
  variance vs =
      if ltb (length vs) 2
      then nought
      else fl.div (squares_from (mean vs) nought vs) (fl.of_int (pos (length vs)))

  -- `StdDev`
  unfoldable pub std_dev : List F → F
  unfolding variance
  std_dev vs = fl.sqrt (variance vs)

  -- The second loop of `SMA`: the sum of the window that ended before the values `entering`, which
  -- meet the values that `leaving` begins with.
  abbrev slide : F → F → List F → List F → List F
  slide size sum leaving [] = []
  slide size sum [] (v ∷ entering) = []
  slide size sum (u ∷ leaving) (v ∷ entering) =
      let sum' = fl.add sum (fl.sub v u) in fl.div sum' size ∷ slide size sum' leaving entering

  -- `SMA`; the nil of a bad window is the empty list.
  unfoldable pub sma : List F → ℤ → List F
  sma vals window =
      if ltb_ℤ window (pos 1) || ltb (length vals) (pos_part window)
      then []
      else let w = pos_part window in
        let size = fl.of_int window in
        let first = sum_from nought (take w vals) in
        fl.div first size ∷ slide size first vals (drop w vals)

  abbrev weighted_sums : F → F → List F → List F → F × F
  weighted_sums w_sum vw_sum [] weights = (w_sum, vw_sum)
  weighted_sums w_sum vw_sum (v ∷ vals) [] = (w_sum, vw_sum)
  weighted_sums w_sum vw_sum (v ∷ vals) (w ∷ weights) =
      weighted_sums (fl.add w_sum w) (fl.add vw_sum (fl.mul v w)) vals weights

  -- `WeightedAverage`
  unfoldable pub weighted_average : List F → List F → Option F
  weighted_average vals weights =
      if length vals == 0 || not (length vals == length weights)
      then none
      else let sums = weighted_sums nought nought vals weights in
        if fl.eq sums.0 nought then none else some (fl.div sums.1 sums.0)
