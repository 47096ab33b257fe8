-- ===== src/Risk/Agent/Guarantees.antt =====
-- src/analysts/riskmanager/agent.go: what the intent handler guarantees of each message.
use navier_stocks.Base.{ℕ, ◌*◌, ◌≡◌, refl, ap, ◌∙◌, ◌⊎◌, inl, inr, Option, none, some, ◌∷◌, arith}
use navier_stocks.Float.{Float64}
use navier_stocks.Models.{TradeIntent, TradeExecution, validate_intent, validate_execution}
use navier_stocks.Risk.Exposure.{Exposure, register, entry_gate}
use navier_stocks.Risk.Exposure.Tracking.{Book}
use navier_stocks.Risk.Exposure.Ceilings.{Within, enter-Within}
use navier_stocks.Risk.Executor.{Link}
use navier_stocks.Risk.Executor.Orders.{Mirrors, build_execution-Mirrors, build_execution_valid}
use navier_stocks.Risk.Agent.{
  Agent, Reply, ack, nak_with_delay, evaluate, handle_intent, sector_of, second, register_in,
}
use navier_stocks.Risk.Agent.Pipeline.{
  Fate, malformed, invalid, rejected, unaffordable, unsent, promoted, sent_out, handle_intent-Fate,
}

module _ {F : Type 0} ⦃fl : Float64 F⦄ where
  -- One execution has gone out, for an intent that is valid and that every gate lets through.
  pub record Promotes (loc : Option ℕ) (clock nanos : ℕ) (g : Agent F) (intent : TradeIntent F)
      (exec : TradeExecution F) : Type 0 where
    pub valid : validate_intent intent ≡ none
    pub passed : evaluate loc clock g intent ≡ none
    pub tradable : validate_execution exec ≡ none
    pub mirrors : Mirrors intent (sector_of g intent.ticker) nanos exec

  abbrev pub Promoted :
      Option ℕ → ℕ → ℕ → Option (TradeIntent F) → Agent F → Agent F × Reply → Type 0
  Promoted loc clock nanos msg g r =
      (intent : TradeIntent F) × (exec : TradeExecution F) × (msg ≡ some intent)
      × (r ≡ (sent_out g exec, ack))
      × Promotes loc clock nanos g intent exec

  Fate-sound :
      (loc : Option ℕ) (clock nanos : ℕ) {msg : Option (TradeIntent F)} (g : Agent F) {g' : Agent F}
      {reply : Reply}
      → Fate loc clock nanos g msg g' reply
      → ((g' ≡ g) × ((reply ≡ ack) ⊎ (reply ≡ nak_with_delay (5 * second))))
        ⊎ Promoted loc clock nanos msg g (g', reply)
  Fate-sound loc clock nanos g malformed = inl (refl, inl refl)
  Fate-sound loc clock nanos g (invalid intent message e) = inl (refl, inl refl)
  Fate-sound loc clock nanos g (rejected intent refusal e) = inl (refl, inl refl)
  Fate-sound loc clock nanos g (unaffordable intent e) = inl (refl, inl refl)
  Fate-sound loc clock nanos g (unsent intent exec link message v p b w e) = inl (refl, inr refl)
  Fate-sound loc clock nanos g (promoted intent exec link v p b w e) = inr (
    intent,
    exec,
    refl,
    refl,
    record {
      valid = v;
      passed = p;
      tradable = build_execution_valid g.capital _ nanos intent exec v b;
      mirrors = build_execution-Mirrors g.capital _ nanos intent exec b;
    },
  )

  -- With a link, a message either leaves the agent exactly as it was, acknowledged or put off for five seconds,
  -- or is acknowledged after one execution has gone out. That execution passes the Trader Gateway's
  -- validation and has the intent's ticker, side, price, reason and sector, and the intent is valid
  -- and passed every gate.
  pub handle_intent_sound :
      (loc : Option ℕ) (clock nanos : ℕ) (msg : Option (TradeIntent F)) (g : Agent F)
      (link : Link F)
      → g.link ≡ some link
      → let r = handle_intent loc clock nanos msg g in
        ((r.0 ≡ g) × ((r.1 ≡ ack) ⊎ (r.1 ≡ nak_with_delay (5 * second))))
        ⊎ Promoted loc clock nanos msg g (r.0, r.1)
  handle_intent_sound loc clock nanos msg g link wired =
      Fate-sound loc clock nanos g (handle_intent-Fate loc clock nanos msg g link wired)

  evaluate_entry :
      (loc : Option ℕ) (clock : ℕ) (g : Agent F) (e : Exposure F) (intent : TradeIntent F)
      → g.exposure ≡ some e
      → evaluate loc clock g intent ≡ none
      → entry_gate e (sector_of g intent.ticker) ≡ none
  unfolding evaluate
  evaluate_entry loc clock g e intent h p = ground arith

  -- The tracker afterwards, over the positions that it counts then.
  abbrev pub Kept : Agent F → Option (TradeIntent F) → ℕ → ℕ → Book → Option (Exposure F) → Type 0
  Kept g msg m n b exposure =
      (e' : Exposure F) × (b' : Book) × (exposure ≡ some e')
      × Within m n e' b'
      × ((b' ≡ b)
          ⊎ ((intent : TradeIntent F) × (msg ≡ some intent)
              × (b' ≡ (intent.side, sector_of g intent.ticker) ∷ b)))

  -- With a link and a tracker within its ceilings, the handler keeps it within them: the positions that it counts
  -- afterwards are those before, with the intent's side and sector in front if one was promoted.
  pub handle_intent-Within :
      (loc : Option ℕ) (clock nanos : ℕ) (msg : Option (TradeIntent F)) (g : Agent F)
      (link : Link F) (e : Exposure F) (b : Book) (m n : ℕ)
      → g.link ≡ some link
      → g.exposure ≡ some e
      → Within m n e b
      → Kept g msg m n b (handle_intent loc clock nanos msg g).0.exposure
  handle_intent-Within loc clock nanos msg g link e b m n wired h w =
      elim (handle_intent_sound loc clock nanos msg g link wired) [
        | inl (same, _) ↦ (e, b, rw same h, w, inl refl)
        | inr (intent, exec, got, result, p) ↦ (
          register e exec.side exec.sector,
          (exec.side, exec.sector) ∷ b,
          exposure_after exec result,
          enter-Within m n e b exec.side exec.sector w
              (rw (p.mirrors.same_sector) (evaluate_entry loc clock g e intent h p.passed)),
          inr (intent, got, rw (p.mirrors.same_side, p.mirrors.same_sector)),
        )
      ]
    where
      exposure_after :
          (exec : TradeExecution F)
          → handle_intent loc clock nanos msg g ≡ (sent_out g exec, ack)
          → (handle_intent loc clock nanos msg g).0.exposure
            ≡ some (register e exec.side exec.sector)
      exposure_after exec result =
          ap (λ (r : Agent F × Reply). r.0.exposure) result ∙ ap (λ x. register_in x exec) h
