-- ===== src/Replay/Runs.antt =====
-- src/pkg/replay/engine.go: what a run publishes.
use navier_stocks.Base.{
  ℕ, ◌+◌, ◌≤◌, ◌≡◌, ◌↔◌, Bool, true, false, Option, none, some, List, [], ◌∷◌, String, length, take,
}
use navier_stocks.Models.{PriceTick}
use navier_stocks.Replay.{Step, ReplayError, price_subject}
use navier_stocks.Replay.Order.{ticks_of}

abbrev pub is_none : Option ReplayError → Bool
is_none none = true
is_none (some e) = false

module _ {F : Type 0} where
  -- Messages in front of those sent before, the last one first.
  abbrev pub messages_onto :
      List (PriceTick F) → List (String × PriceTick F) → List (String × PriceTick F)
  messages_onto [] sent = sent
  messages_onto (t ∷ ts) sent = messages_onto ts ((price_subject t.ticker, t) ∷ sent)

  -- What a run that began after `n` ticks leaves.
  pub record Publishes (n : ℕ) (sent : List (String × PriceTick F)) (steps : List (Step F))
      (r : ℕ × Option ReplayError × List (String × PriceTick F)) : Type 0 where
    pub more : ℕ
    pub within : more ≤ length steps
    pub counted : r.0 ≡ n + more
    pub complete : (is_none r.1 ≡ true) ↔ (more ≡ length steps)
    pub in_order : r.2 ≡ messages_onto (take more (ticks_of steps)) sent
