-- ===== src/Risk/SquareOff/Liquidation.antt =====
-- src/analysts/riskmanager/squareoff.go: the loop of `liquidate` as a whole, and `squareOff`.
use mathlib.Core.List.{append_assoc}
use navier_stocks.Base.{
  ℕ, ◌≡◌, ◌<◌, refl, ap, ◌∙◌, sym, ◌⊎◌, inl, inr, Bool, true, false, ◌&&◌, ◌||◌, Option, none, some,
  List, [], ◌∷◌, ◌++◌, arith, ◌==◌, if◌then◌else◌, Bool-cases,
}
use navier_stocks.Float.{Float64}
use navier_stocks.Models.{Position}
use navier_stocks.Clock.{day_of, time_of_day, at_clock, before}
use navier_stocks.Database.{done}
use navier_stocks.Database.Positions.{Table, open_rows, list_open, affected}
use navier_stocks.Database.Positions.Keys.{Below-mono, Below-open_rows, without-Below}
use navier_stocks.Database.Positions.Lifecycle.{Below, without, IsTable}
use navier_stocks.Risk.Agent.{Agent, latest_price}
use navier_stocks.Risk.SquareOff.{
  Faults, exit_price_of, Progress, liquidate_one, liquidate_each, liquidate, liquidate_listed,
  mark_day, square_off, is_today,
}
use navier_stocks.Risk.SquareOff.Closing.{closes, Round, liquidate_one-Round}

module _ {F : Type 0} where
  abbrev has_id : ℕ → List (Position F) → Bool
  has_id id [] = false
  has_id id (p ∷ ps) = p.id == id || has_id id ps

  affected-eq-has_id : (id : ℕ) (ps : List (Position F)) → affected id ps ≡ has_id id (open_rows ps)
  affected-eq-has_id id [] = refl
  affected-eq-has_id id (p ∷ ps) = ground (arith, affected-eq-has_id id ps)

  has_id-middle :
      (ks : List (Position F)) (p : Position F) (ps : List (Position F))
      → has_id p.id (ks ++ p ∷ ps) ≡ true
  has_id-middle [] p ps = ground arith
  has_id-middle (k ∷ ks) p ps = ground (arith, has_id-middle ks p ps)

  Below-middle :
      (n : ℕ) (ks : List (Position F)) (p : Position F) (ps : List (Position F))
      → Below n (ks ++ p ∷ ps)
      → Below n (ks ++ ps) × (p.id < n)
  Below-middle n [] p ps b = (Below-mono p.id n ps (omega arith) b.1, b.0)
  Below-middle n (k ∷ ks) p ps b =
      let r = Below-middle k.id ks p ps b.1 in ((b.0, r.0), omega arith)

  -- Taking the one row with its id out of the middle.
  without-middle :
      (n : ℕ) (ks : List (Position F)) (p : Position F) (ps : List (Position F))
      → Below n (ks ++ p ∷ ps)
      → without p.id (ks ++ p ∷ ps) ≡ ks ++ ps
  without-middle n [] p ps b = ground (arith, without-Below p.id p.id ps b.1)
  without-middle n (k ∷ ks) p ps b =
      ground (arith, without-middle k.id ks p ps b.1, (Below-middle k.id ks p ps b.1).1)

module _ {F : Type 0} ⦃fl : Float64 F⦄ where
  -- The positions that a square-off leaves open: the link or the store refused them.
  abbrev pub survivors : Agent F → Faults → ℕ → List (Position F) → List (Position F)
  survivors g faults now [] = []
  survivors g faults now (p ∷ ps) =
      if closes g.link faults now (exit_price_of g p) p
      then survivors g faults now ps
      else p ∷ survivors g faults now ps

  abbrev pub is_nil : List (Position F) → Bool
  is_nil [] = true
  is_nil (p ∷ ps) = false

  exit_price_of-eq :
      (g g' : Agent F) (p : Position F)
      → g'.last_price ≡ g.last_price
      → exit_price_of g' p ≡ exit_price_of g p
  unfolding latest_price
  exit_price_of-eq g g' p h = rw (h, latest_price)

  closes-eq :
      (g g' : Agent F) (faults : Faults) (now : ℕ) (p : Position F)
      → g'.link ≡ g.link
      → g'.last_price ≡ g.last_price
      → closes g'.link faults now (exit_price_of g' p) p
        ≡ closes g.link faults now (exit_price_of g p) p
  closes-eq g g' faults now p l q =
      ap (λ link. closes link faults now (exit_price_of g' p) p) l
      ∙ ap (λ price. closes g.link faults now price p) (exit_price_of-eq g g' p q)

  -- The rounds over `ps`, after which the rows before them that are still open are `ks`.
  liquidate_each-survivors :
      (faults : Faults) (now n : ℕ) (g : Agent F) (ps ks : List (Position F)) (s : Progress F)
      → s.0.link ≡ g.link
      → s.0.last_price ≡ g.last_price
      → Below n (ks ++ ps)
      → open_rows s.1.rows ≡ ks ++ ps
      → let s' = liquidate_each faults now ps s in
        (open_rows s'.1.rows ≡ ks ++ survivors g faults now ps)
        × (s'.2 ≡ (s.2 && is_nil (survivors g faults now ps)))
        × (s'.0.sq_done ≡ s.0.sq_done)
  unfolding liquidate_each
  liquidate_each-survivors faults now n g [] ks s l q b o = (o, ground arith, refl)
  liquidate_each-survivors faults now n g (p ∷ ps) ks s l q b o =
      elim (Bool-cases (closes g.link faults now (exit_price_of g p) p)) [
        | inl closed ↦
            let r =
              liquidate_each-survivors faults now n g ps ks s₁ (round.same_link ∙ l)
                (round.same_prices ∙ q) (Below-middle n ks p ps b).0 (open_after closed) in
            (
              rw closed r.0,
              rw closed (ground (arith, r.1, round.all_closed, same, closed)),
              r.2 ∙ round.same_day,
            )
        | inr left ↦
            let r =
              liquidate_each-survivors faults now n g ps (ks ++ p ∷ []) s₁ (round.same_link ∙ l)
                (round.same_prices ∙ q) (rw (append_assoc ks (p ∷ []) ps) b) (open_kept left) in
            (
              rw left (r.0 ∙ append_assoc ks (p ∷ []) (survivors g faults now ps)),
              rw left (ground (arith, r.1, round.all_closed, same, left)),
              r.2 ∙ round.same_day,
            )
      ]
    where
      s₁ : Progress F
      s₁ = liquidate_one faults now p s

      round : Round faults now p s s₁
      round =
          liquidate_one-Round faults now p s
            (affected-eq-has_id p.id s.1.rows ∙ ap (has_id p.id) o ∙ has_id-middle ks p ps)

      same :
          closes s.0.link faults now (exit_price_of s.0 p) p
          ≡ closes g.link faults now (exit_price_of g p) p
      same = closes-eq g s.0 faults now p l q

      open_after :
          closes g.link faults now (exit_price_of g p) p ≡ true → open_rows s₁.1.rows ≡ ks ++ ps
      open_after closed =
          round.still_open ∙ rw (same ∙ closed) (ap (without p.id) o ∙ without-middle n ks p ps b)

      open_kept :
          closes g.link faults now (exit_price_of g p) p ≡ false
          → open_rows s₁.1.rows ≡ (ks ++ p ∷ []) ++ ps
      open_kept left = round.still_open ∙ rw (same ∙ left) (o ∙ sym (append_assoc ks (p ∷ []) ps))

  square_off_due :
      (zone : ℕ) (faults : Faults) (now : ℕ) (g : Agent F) (t : Table F)
      → g.positions_wired ≡ true
      → before (time_of_day zone now) (at_clock 15 15) ≡ false
      → is_today g.sq_done (day_of zone now) ≡ false
      → square_off (some zone) faults now g t
        ≡ mark_day (day_of zone now) (liquidate faults now g t)
  unfolding square_off
  square_off_due zone faults now g t wired late fresh = ground arith

  liquidate_of_listed :
      (faults : Faults) (now : ℕ) (g : Agent F) (t : Table F)
      → faults.on_list ≡ none
      → liquidate faults now g t ≡ liquidate_listed faults now g t (done (open_rows t.rows))
  unfolding liquidate list_open
  liquidate_of_listed faults now g t h =
      ap (λ fault. liquidate_listed faults now g t (list_open fault t)) h

  -- The day is marked by the loop's flag.
  mark_day_sq_done :
      (day : ℕ) (g : Agent F) (t : Table F) (all : Bool)
      → let r = mark_day day (true, record g { all_closed = all }, t) in
        (r.1.rows ≡ t.rows) × (r.0.sq_done ≡ (if all then some day else g.sq_done))
  mark_day_sq_done day g t true = (refl, refl)
  mark_day_sq_done day g t false = (refl, refl)

  -- After the trigger on a day that is not done, with the store wired and listing its rows, the
  -- square-off leaves open exactly the positions whose order the link refused or whose closing the
  -- store refused, in their order, and marks the day as done just if there are none.
  pub square_off-survivors :
      (zone : ℕ) (faults : Faults) (now : ℕ) (g : Agent F) (t : Table F)
      → IsTable t
      → g.positions_wired ≡ true
      → before (time_of_day zone now) (at_clock 15 15) ≡ false
      → is_today g.sq_done (day_of zone now) ≡ false
      → faults.on_list ≡ none
      → let r = square_off (some zone) faults now g t in
        let left = survivors g faults now (open_rows t.rows) in
        (open_rows r.1.rows ≡ left)
        × (r.0.sq_done ≡ (if is_nil left then some (day_of zone now) else g.sq_done))
  square_off-survivors zone faults now g t v wired late fresh listed =
      rw
        (
          square_off_due zone faults now g t wired late fresh,
          liquidate_of_listed faults now g t listed,
        )
        (ap open_rows marked.0 ∙ r.0, marked.1 ∙ rw (r.1, r.2))
    where
      final : Progress F
      final = liquidate_each faults now (open_rows t.rows) (g, t, true)

      r :
          (open_rows final.1.rows ≡ survivors g faults now (open_rows t.rows))
          × (final.2 ≡ is_nil (survivors g faults now (open_rows t.rows)))
          × (final.0.sq_done ≡ g.sq_done)
      r =
          liquidate_each-survivors faults now t.next_id g (open_rows t.rows) [] (g, t, true) refl
            refl (Below-open_rows t.next_id t.rows v.keyed) refl

      marked :
          let m =
            mark_day (day_of zone now) (true, record (final.0) { all_closed = final.2 }, final.1) in
          (m.1.rows ≡ final.1.rows)
          × (m.0.sq_done ≡ (if final.2 then some (day_of zone now) else final.0.sq_done))
      marked = mark_day_sq_done (day_of zone now) final.0 final.1 final.2

  -- Before the trigger, on a day that is done, with no store or with no time zone, the square-off
  -- changes nothing.
  pub square_off_idle :
      (loc : Option ℕ) (faults : Faults) (now : ℕ) (g : Agent F) (t : Table F)
      → ((zone : ℕ)
          → loc ≡ some zone
          → (g.positions_wired ≡ false)
            ⊎ (before (time_of_day zone now) (at_clock 15 15) ≡ true)
            ⊎ (is_today g.sq_done (day_of zone now) ≡ true))
      → square_off loc faults now g t ≡ (g, t)
  unfolding square_off
  square_off_idle none faults now g t h = refl
  square_off_idle (some zone) faults now g t h = ground (arith, h zone refl)
