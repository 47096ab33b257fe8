-- ===== src/Database/Positions/Keys.antt =====
-- src/pkg/database/positions.go: lists of rows in the order of their keys.
use navier_stocks.Base.{ℕ, ◌≤◌, ◌≡◌, refl, List, [], ◌∷◌, arith}
use navier_stocks.Models.{Position}
use navier_stocks.Database.Positions.{open_rows}
use navier_stocks.Database.Positions.Lifecycle.{Below, without}

module _ {F : Type 0} where
  pub Below-mono : (m n : ℕ) (ps : List (Position F)) → m ≤ n → Below m ps → Below n ps
  Below-mono m n [] h b = tt
  Below-mono m n (p ∷ ps) h b = (omega arith, b.1)

  pub Below-open_rows : (n : ℕ) (ps : List (Position F)) → Below n ps → Below n (open_rows ps)
  Below-open_rows n [] b = tt
  Below-open_rows n (p ∷ ps) b =
      ground (arith, Below-open_rows p.id ps b.1, Below-mono p.id n (open_rows ps))

  pub without-Below : (n id : ℕ) (ps : List (Position F)) → Below n ps → n ≤ id → without id ps ≡ ps
  without-Below n id [] b h = refl
  without-Below n id (p ∷ ps) b h = ground (arith, without-Below p.id id ps b.1)
