-- ===== src/Trader/ExitMonitor/Hits.antt =====
-- src/analysts/trader/exitmonitor.go: the positions that a price closes, among all open positions.
use navier_stocks.Base.{
  ℕ, ◌≡◌, ◌<◌, ◌≤◌, refl, ap, ◌∙◌, ◌⊎◌, inl, inr, Bool, true, false, ◌&&◌, Option, none, some, List,
  [], ◌∷◌, String, arith, if◌then◌else◌, Bool-cases, Option-cases, All, All-mono,
}
use navier_stocks.Base.Text.{str_eq}
use navier_stocks.Float.{Float64}
use navier_stocks.Models.{Position, ExitReason}
use navier_stocks.Database.Positions.Keys.{Below-mono}
use navier_stocks.Database.Positions.Lifecycle.{Below, find_row}
use navier_stocks.Trader.ExitMonitor.{Target, has_id, crossed, select}
use navier_stocks.Trader.ExitMonitor.Marks.{ids_of}

abbrev is_some {ℓ} : {A : Type ℓ} → Option A → Bool
is_some none = false
is_some (some a) = true

abbrev pub IsDistinct : List ℕ → Type 0
IsDistinct [] = Unit {0}
IsDistinct (i ∷ ids) = (has_id i ids ≡ false) × IsDistinct ids

module _ {F : Type 0} where
  -- The rows of one ticker, in their order.
  abbrev pub rows_of : String → List (Position F) → List (Position F)
  rows_of ticker [] = []
  rows_of ticker (p ∷ ps) =
      if str_eq p.ticker ticker then p ∷ rows_of ticker ps else rows_of ticker ps

  -- The rows whose ids are not listed.
  abbrev pub not_in : List ℕ → List (Position F) → List (Position F)
  not_in ids [] = []
  not_in ids (p ∷ ps) = if has_id p.id ids then not_in ids ps else p ∷ not_in ids ps

  -- That a target is the row with its id, which is below `n`.
  abbrev pub IsFound : ℕ → List (Position F) → Target F → Type 0
  IsFound n ps target = (target.0.id < n) × (find_row target.0.id ps ≡ some target.0)

  has_id_above :
      (n id : ℕ) (ps : List (Position F)) (targets : List (Target F))
      → n ≤ id
      → All (IsFound n ps) targets
      → has_id id (ids_of targets) ≡ false
  has_id_above n id ps [] h a = refl
  has_id_above n id ps ((p, reason) ∷ targets) h a =
      ground (arith, a.0.0, has_id_above n id ps targets h a.1)

  not_in_above :
      (n id : ℕ) (ids : List ℕ) (ps : List (Position F))
      → Below n ps
      → n ≤ id
      → not_in (id ∷ ids) ps ≡ not_in ids ps
  not_in_above n id ids [] b h = refl
  not_in_above n id ids (p ∷ ps) b h =
      ground (arith, b.0, not_in_above p.id id ids ps b.1 (omega (arith, b.0)))

  pub Below-rows_of :
      (n : ℕ) (ticker : String) (ps : List (Position F)) → Below n ps → Below n (rows_of ticker ps)
  Below-rows_of n ticker [] b = tt
  Below-rows_of n ticker (p ∷ ps) b =
      ground (arith, b.0, Below-rows_of p.id ticker ps b.1, Below-mono p.id n (rows_of ticker ps))

module _ {F : Type 0} ⦃fl : Float64 F⦄ where
  abbrev hit_onto : Position F → Option ExitReason → List (Target F) → List (Target F)
  hit_onto p none rest = rest
  hit_onto p (some reason) rest = (p, reason) ∷ rest

  -- The targets among rows of which none is in flight.
  abbrev pub hits : F → List (Position F) → List (Target F)
  hits price [] = []
  hits price (p ∷ ps) = hit_onto p (crossed p price) (hits price ps)

  -- Whether a tick closes a position, and what it leaves of the open ones.
  abbrev pub is_hit : String → F → Position F → Bool
  is_hit ticker price p = str_eq p.ticker ticker && is_some (crossed p price)

  abbrev pub survivors : String → F → List (Position F) → List (Position F)
  survivors ticker price [] = []
  survivors ticker price (p ∷ ps) =
      if is_hit ticker price p then survivors ticker price ps else p ∷ survivors ticker price ps

  -- That no row is in flight.
  abbrev pub IsIdle : List ℕ → List (Position F) → Type 0
  IsIdle marks ps = All (λ (p : Position F). has_id p.id marks ≡ false) ps

  IsIdle-cons :
      (n id : ℕ) (marks : List ℕ) (ps : List (Position F))
      → Below n ps
      → n ≤ id
      → IsIdle marks ps
      → IsIdle (id ∷ marks) ps
  IsIdle-cons n id marks [] b h a = tt
  IsIdle-cons n id marks (p ∷ ps) b h a =
      (ground (arith, b.0, a.0), IsIdle-cons p.id id marks ps b.1 (omega (arith, b.0)) a.1)

  pub select-eq-hits :
      (n : ℕ) (price : F) (ps : List (Position F)) (marks : List ℕ)
      → Below n ps
      → IsIdle marks ps
      → (select price ps marks).0 ≡ hits price ps
  unfolding select
  select-eq-hits n price [] marks b a = refl
  select-eq-hits n price (p ∷ ps) marks b a = elim (Option-cases (crossed p price)) [
    | inl missed ↦ rw (a.0, missed) (select-eq-hits p.id price ps marks b.1 a.1)
    | inr (reason, hit) ↦
        rw (a.0, hit)
          (ap (λ rest. (p, reason) ∷ rest)
            (select-eq-hits p.id price ps (p.id ∷ marks) b.1
              (IsIdle-cons p.id p.id marks ps b.1 (omega arith) a.1)))
  ]

  pub hits-IsFound :
      (n : ℕ) (ticker : String) (price : F) (ps : List (Position F))
      → Below n ps
      → All (IsFound n ps) (hits price (rows_of ticker ps))
  hits-IsFound n ticker price [] b = tt
  hits-IsFound n ticker price (p ∷ ps) b =
      let rest =
        All-mono (IsFound p.id ps) (IsFound n (p ∷ ps)) (hits price (rows_of ticker ps))
          (λ target f. (omega (arith, f.0, b.0), ground (arith, f.0, f.1)))
          (hits-IsFound p.id ticker price ps b.1) in
      elim (Bool-cases (str_eq p.ticker ticker)) [
        | inr other ↦ rw other rest
        | inl same ↦ elim (Option-cases (crossed p price)) [
          | inl missed ↦ rw (same, missed) rest
          | inr (reason, hit) ↦ rw (same, hit) ((b.0, ground arith), rest)
        ]
      ]

  pub hits-IsDistinct :
      (n : ℕ) (ticker : String) (price : F) (ps : List (Position F))
      → Below n ps
      → IsDistinct (ids_of (hits price (rows_of ticker ps)))
  hits-IsDistinct n ticker price [] b = tt
  hits-IsDistinct n ticker price (p ∷ ps) b =
      let rest = hits-IsDistinct p.id ticker price ps b.1 in
      let new =
        has_id_above p.id p.id ps (hits price (rows_of ticker ps)) (omega arith)
          (hits-IsFound p.id ticker price ps b.1) in
      elim (Bool-cases (str_eq p.ticker ticker)) [
        | inr other ↦ rw other rest
        | inl same ↦ elim (Option-cases (crossed p price)) [
          | inl missed ↦ rw (same, missed) rest
          | inr (reason, hit) ↦ rw (same, hit) (new, rest)
        ]
      ]

  hits-hit :
      (ticker : String) (price : F) (p : Position F) (ps : List (Position F)) (reason : ExitReason)
      → str_eq p.ticker ticker ≡ true
      → crossed p price ≡ some reason
      → hits price (rows_of ticker (p ∷ ps)) ≡ (p, reason) ∷ hits price (rows_of ticker ps)
  hits-hit ticker price p ps reason same hit = rw (same, hit) refl

  hits-skip :
      (ticker : String) (price : F) (p : Position F) (ps : List (Position F))
      → (str_eq p.ticker ticker ≡ false) ⊎ (crossed p price ≡ none)
      → hits price (rows_of ticker (p ∷ ps)) ≡ hits price (rows_of ticker ps)
  hits-skip ticker price p ps h = ground (arith, h)

  -- A row that is no target stays, whatever the targets after it are.
  skipped :
      (ticker : String) (price : F) (p : Position F) (ps : List (Position F))
      → (str_eq p.ticker ticker ≡ false) ⊎ (crossed p price ≡ none)
      → has_id p.id (ids_of (hits price (rows_of ticker ps))) ≡ false
      → not_in (ids_of (hits price (rows_of ticker ps))) ps ≡ survivors ticker price ps
      → not_in (ids_of (hits price (rows_of ticker (p ∷ ps)))) (p ∷ ps)
        ≡ survivors ticker price (p ∷ ps)
  skipped ticker price p ps h new rest =
      ap (λ ts. not_in (ids_of ts) (p ∷ ps)) (hits-skip ticker price p ps h)
      ∙ ground (arith, h, new, rest)

  -- Leaving out the ids of the targets leaves the survivors.
  pub not_in-hits :
      (n : ℕ) (ticker : String) (price : F) (ps : List (Position F))
      → Below n ps
      → not_in (ids_of (hits price (rows_of ticker ps))) ps ≡ survivors ticker price ps
  not_in-hits n ticker price [] b = refl
  not_in-hits n ticker price (p ∷ ps) b =
      let rest = not_in-hits p.id ticker price ps b.1 in
      let targets = hits price (rows_of ticker ps) in
      let new =
        has_id_above p.id p.id ps targets (omega arith) (hits-IsFound p.id ticker price ps b.1) in
      elim (Bool-cases (str_eq p.ticker ticker)) [
        | inr other ↦ skipped ticker price p ps (inl other) new rest
        | inl same ↦ elim (Option-cases (crossed p price)) [
          | inl missed ↦ skipped ticker price p ps (inr missed) new rest
          | inr (reason, hit) ↦
              let skip = not_in_above p.id p.id (ids_of targets) ps b.1 (omega arith) in
              ap (λ ts. not_in (ids_of ts) (p ∷ ps)) (hits-hit ticker price p ps reason same hit)
              ∙ ground (arith, same, hit, skip, rest)
        ]
      ]
