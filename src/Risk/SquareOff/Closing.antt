-- ===== src/Risk/SquareOff/Closing.antt =====
-- src/analysts/riskmanager/squareoff.go: which positions a square-off closes, and which it leaves.
use navier_stocks.Base.{
  ℕ, ◌≡◌, refl, ◌⊎◌, inl, inr, Bool, true, false, ◌&&◌, Option, none, some, List, ◌∷◌, String,
  arith, if◌then◌else◌, Option-cases,
}
use navier_stocks.Float.{Float64}
use navier_stocks.Models.{Position, reason_square_off}
use navier_stocks.Database.Positions.{Table, open_rows, mark_closed, affected}
use navier_stocks.Database.Positions.Lifecycle.{open_rows-close_rows, without}
use navier_stocks.Risk.{Refusal}
use navier_stocks.Risk.Executor.{Link, Sent, execute_subject, publish_execution}
use navier_stocks.Risk.Agent.{Agent}
use navier_stocks.Risk.SquareOff.{
  Faults, square_off_order, exit_price_of, after_mark, after_signal, Progress, liquidate_one,
}

abbrev is_none : Option String → Bool
is_none none = true
is_none (some m) = false

module _ {F : Type 0} ⦃fl : Float64 F⦄ where
  -- Whether the link takes the closing order, and whether the store then takes the closing.
  abbrev pub publishes : Option (Link F) → ℕ → F → Position F → Bool
  publishes none now price p = true
  publishes (some link) now price p =
      is_none (link (execute_subject p.ticker) (square_off_order p price now))

  abbrev pub closes : Option (Link F) → Faults → ℕ → F → Position F → Bool
  closes link faults now price p = publishes link now price p && is_none (faults.on_close p.id)

  -- One round on a position that is open.
  pub record Round (faults : Faults) (now : ℕ) (p : Position F) (s s' : Progress F) : Type 0 where
    pub all_closed : s'.2 ≡ (s.2 && closes s.0.link faults now (exit_price_of s.0 p) p)
    pub still_open : open_rows s'.1.rows ≡ (
        if closes s.0.link faults now (exit_price_of s.0 p) p
        then without p.id (open_rows s.1.rows)
        else open_rows s.1.rows)
    pub same_link : s'.0.link ≡ s.0.link
    pub same_prices : s'.0.last_price ≡ s.0.last_price
    pub same_day : s'.0.sq_done ≡ s.0.sq_done

  -- A publish, by whether the link takes the order.
  publish_cases :
      (link : Option (Link F)) (sent : List (Sent F)) (now : ℕ) (price : F) (p : Position F)
      → ((publishes link now price p ≡ true)
          × (sent' : List (Sent F)) × (publish_execution link sent (square_off_order p price now)
              ≡ (none, sent')))
        ⊎ ((publishes link now price p ≡ false)
            × (error : Refusal) × (publish_execution link sent (square_off_order p price now)
                ≡ (some error, sent)))
  unfolding publish_execution square_off_order
  publish_cases none sent now price p = inl (refl, sent, refl)
  publish_cases (some link) sent now price p =
      elim (Option-cases (link (execute_subject p.ticker) (square_off_order p price now))) [
        | inl e ↦ inl (
          rw e,
          (execute_subject p.ticker, square_off_order p price now) ∷ sent,
          rw (e, publish_execution),
        )
        | inr (m, e) ↦ inr (rw e, Refusal.publish_failed m, rw (e, publish_execution))
      ]

  -- What the answer of the store does to the loop's state.
  marked_round :
      (fault : Option String) (now : ℕ) (p : Position F) (price : F) (g : Agent F) (t : Table F)
      (all : Bool)
      → affected p.id t.rows ≡ true
      → let s = after_mark g t all p (mark_closed fault p.id price reason_square_off now t) in
        (s.2 ≡ (all && is_none fault))
        × (open_rows s.1.rows
            ≡ (if is_none fault then without p.id (open_rows t.rows) else open_rows t.rows))
        × (s.0.link ≡ g.link)
        × (s.0.last_price ≡ g.last_price)
        × (s.0.sq_done ≡ g.sq_done)
  unfolding after_mark mark_closed
  marked_round none now p price g t all h =
      rw (h, mark_closed)
        (
          ground arith,
          open_rows-close_rows p.id price reason_square_off now t.rows,
          refl,
          refl,
          refl,
        )
  marked_round (some m) now p price g t all h = (ground arith, refl, refl, refl, refl)

  pub liquidate_one-Round :
      (faults : Faults) (now : ℕ) (p : Position F) (s : Progress F)
      → affected p.id s.1.rows ≡ true
      → Round faults now p s (liquidate_one faults now p s)
  unfolding liquidate_one
  liquidate_one-Round faults now p (g, t, all) h =
      elim (publish_cases g.link g.sent now (exit_price_of g p) p) [
        | inl (took, sent, e) ↦
            let m =
              marked_round (faults.on_close p.id) now p (exit_price_of g p)
                (record g { sent = sent }) t all h in
            rw (e, after_signal)
              (record {
                all_closed = rw took m.0;
                still_open = rw took m.1;
                same_link = m.2;
                same_prices = m.3;
                same_day = m.4;
              })
        | inr (lost, error, e) ↦
            rw (e, after_signal)
              (record {
                all_closed = rw lost (ground arith);
                still_open = rw lost;
                same_link = refl;
                same_prices = refl;
                same_day = refl;
              })
      ]
