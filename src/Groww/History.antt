-- ===== src/Groww/History.antt =====
-- src/pkg/groww/historical.go: the candles of an answer, whose rows are what JSON holds.
use navier_stocks.Base.{List, [], ◌∷◌}
use navier_stocks.Base.Int.{ℤ, pos}
use navier_stocks.Float.{Float64, nought}
use navier_stocks.Groww.DataTypes.{HistoricalCandle}

-- A value of type `any`; encoding/json makes a float64 of every number.
pub data Value (F : Type 0) : Type 0 where
  real : F → Value F
  whole64 : ℤ → Value F
  whole : ℤ → Value F
  other : Value F

module _ {F : Type 0} ⦃fl : Float64 F⦄ where
  -- `toInt64`, whose second result no caller uses
  unfoldable pub to_int64 : Value F → ℤ
  to_int64 (real x) = fl.to_int x
  to_int64 (whole64 n) = n
  to_int64 (whole n) = n
  to_int64 other = pos 0

  -- `toFloat64`, likewise
  unfoldable pub to_float64 : Value F → F
  to_float64 (real x) = x
  to_float64 (whole64 n) = fl.of_int n
  to_float64 (whole n) = fl.of_int n
  to_float64 other = nought

  -- The loop of `GetHistoricalCandles`: a row of less than six values is left out.
  unfoldable pub candles_of : List (List (Value F)) → List (HistoricalCandle F)
  unfolding to_int64 to_float64
  candles_of [] = []
  candles_of ((t ∷ o ∷ h ∷ l ∷ c ∷ v ∷ more) ∷ rows) =
      record {
        timestamp = to_int64 t;
        open_price = to_float64 o;
        high = to_float64 h;
        low = to_float64 l;
        close_price = to_float64 c;
        volume = to_int64 v;
      }
      ∷ candles_of rows
  candles_of (short ∷ rows) = candles_of rows
