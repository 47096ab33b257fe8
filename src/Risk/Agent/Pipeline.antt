-- ===== src/Risk/Agent/Pipeline.antt =====
-- src/analysts/riskmanager/agent.go and executor.go: what becomes of an intent.
use navier_stocks.Base.{
  ℕ, suc, ◌≡◌, ◌⊎◌, ◌*◌, inl, inr, Option, none, some, ◌∷◌, String, arith, Option-cases,
}
use navier_stocks.Float.{Float64}
use navier_stocks.Models.{TradeIntent, TradeExecution, validate_intent}
use navier_stocks.Risk.{Refusal}
use navier_stocks.Risk.Executor.{Link, execute_subject, build_execution, publish_execution}
use navier_stocks.Risk.Agent.{
  Agent, Reply, ack, nak_with_delay, evaluate, promote, handle_intent, sector_of, register_in,
  settle, second,
}

module _ {F : Type 0} ⦃fl : Float64 F⦄ where
  -- The agent after an execution has gone out.
  abbrev pub sent_out : Agent F → TradeExecution F → Agent F
  sent_out g exec = record g {
    sent = (execute_subject exec.ticker, exec) ∷ g.sent;
    exposure = register_in g.exposure exec;
    accepted = suc g.accepted;
  }

  -- The fate of a message: dropped, put off, or promoted to exactly one execution.
  pub data Fate (loc : Option ℕ) (clock nanos : ℕ) (g : Agent F)
      : Option (TradeIntent F) → Agent F → Reply → Type 0 where
    malformed : Fate loc clock nanos g none g ack
    invalid :
        (intent : TradeIntent F) (message : String)
        → validate_intent intent ≡ some message
        → Fate loc clock nanos g (some intent) g ack
    rejected :
        (intent : TradeIntent F) (refusal : Refusal)
        → evaluate loc clock g intent ≡ some refusal
        → Fate loc clock nanos g (some intent) g ack
    unaffordable :
        (intent : TradeIntent F)
        → build_execution g.capital (sector_of g intent.ticker) nanos intent ≡ none
        → Fate loc clock nanos g (some intent) g ack
    unsent :
        (intent : TradeIntent F) (exec : TradeExecution F) (link : Link F) (message : String)
        → validate_intent intent ≡ none
        → evaluate loc clock g intent ≡ none
        → build_execution g.capital (sector_of g intent.ticker) nanos intent ≡ some exec
        → g.link ≡ some link
        → link (execute_subject exec.ticker) exec ≡ some message
        → Fate loc clock nanos g (some intent) g (nak_with_delay (5 * second))
    promoted :
        (intent : TradeIntent F) (exec : TradeExecution F) (link : Link F)
        → validate_intent intent ≡ none
        → evaluate loc clock g intent ≡ none
        → build_execution g.capital (sector_of g intent.ticker) nanos intent ≡ some exec
        → g.link ≡ some link
        → link (execute_subject exec.ticker) exec ≡ none
        → Fate loc clock nanos g (some intent) (sent_out g exec) ack

  -- What `promote` answers, by what the allocator and the link say.
  promote_unaffordable :
      (nanos : ℕ) (intent : TradeIntent F) (g : Agent F)
      → build_execution g.capital (sector_of g intent.ticker) nanos intent ≡ none
      → promote nanos g intent ≡ (some Refusal.insufficient_capital, g)
  unfolding promote
  promote_unaffordable nanos intent g e = rw (e, promote)

  promote_unsent :
      (nanos : ℕ) (intent : TradeIntent F) (g : Agent F) (exec : TradeExecution F) (link : Link F)
      (message : String)
      → build_execution g.capital (sector_of g intent.ticker) nanos intent ≡ some exec
      → g.link ≡ some link
      → link (execute_subject exec.ticker) exec ≡ some message
      → promote nanos g intent ≡ (some (Refusal.publish_failed message), g)
  unfolding promote publish_execution
  promote_unsent nanos intent g exec link message e wired failed = ground arith

  promote_sent :
      (nanos : ℕ) (intent : TradeIntent F) (g : Agent F) (exec : TradeExecution F) (link : Link F)
      → build_execution g.capital (sector_of g intent.ticker) nanos intent ≡ some exec
      → g.link ≡ some link
      → link (execute_subject exec.ticker) exec ≡ none
      → promote nanos g intent ≡ (
        none,
        record g {
          sent = (execute_subject exec.ticker, exec) ∷ g.sent;
          exposure = register_in g.exposure exec;
        },
      )
  unfolding promote publish_execution
  promote_sent nanos intent g exec link e wired sent = ground arith

  promote-Fate :
      (loc : Option ℕ) (clock nanos : ℕ) (intent : TradeIntent F) (g : Agent F) (link : Link F)
      → g.link ≡ some link
      → validate_intent intent ≡ none
      → evaluate loc clock g intent ≡ none
      → let r = settle (promote nanos g intent) in Fate loc clock nanos g (some intent) r.0 r.1
  unfolding settle
  promote-Fate loc clock nanos intent g link wired valid passed =
      elim (Option-cases (build_execution g.capital (sector_of g intent.ticker) nanos intent)) [
        | inl e ↦ rw (promote_unaffordable nanos intent g e) (unaffordable intent e)
        | inr (exec, e) ↦
            published_fate exec e (Option-cases (link (execute_subject exec.ticker) exec))
      ]
    where
      published_fate :
          (exec : TradeExecution F)
          → build_execution g.capital (sector_of g intent.ticker) nanos intent ≡ some exec
          → (link (execute_subject exec.ticker) exec ≡ none)
            ⊎ ((m : String) × (link (execute_subject exec.ticker) exec ≡ some m))
          → let r = settle (promote nanos g intent) in Fate loc clock nanos g (some intent) r.0 r.1
      published_fate exec e (inl sent) =
          rw (promote_sent nanos intent g exec link e wired sent)
            (promoted intent exec link valid passed e wired sent)
      published_fate exec e (inr (m, failed)) =
          rw (promote_unsent nanos intent g exec link m e wired failed)
            (unsent intent exec link m valid passed e wired failed)

  -- With a link, `handleIntent` acknowledges a message and leaves the agent as it was if the payload is
  -- malformed, the intent invalid, refused by a gate or too small a position; puts it off for five
  -- seconds if the link refuses the execution; and otherwise sends the one execution, registers it and
  -- acknowledges.
  pub handle_intent-Fate :
      (loc : Option ℕ) (clock nanos : ℕ) (msg : Option (TradeIntent F)) (g : Agent F)
      (link : Link F)
      → g.link ≡ some link
      → let r = handle_intent loc clock nanos msg g in Fate loc clock nanos g msg r.0 r.1
  unfolding handle_intent
  handle_intent-Fate loc clock nanos none g link wired = malformed
  handle_intent-Fate loc clock nanos (some intent) g link wired =
      elim (Option-cases (validate_intent intent)) [
        | inr (message, e) ↦ rw (e, handle_intent) (invalid intent message e)
        | inl valid ↦ judged_fate valid (Option-cases (evaluate loc clock g intent))
      ]
    where
      judged_fate :
          validate_intent intent ≡ none
          → (evaluate loc clock g intent ≡ none)
            ⊎ ((refusal : Refusal) × (evaluate loc clock g intent ≡ some refusal))
          → let r = handle_intent loc clock nanos (some intent) g in
            Fate loc clock nanos g (some intent) r.0 r.1
      judged_fate valid (inl passed) =
          rw (valid, passed, handle_intent)
            (promote-Fate loc clock nanos intent g link wired valid passed)
      judged_fate valid (inr (refusal, refused)) =
          rw (valid, refused, handle_intent) (rejected intent refusal refused)
