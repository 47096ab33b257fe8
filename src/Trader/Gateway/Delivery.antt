-- ===== src/Trader/Gateway/Delivery.antt =====
-- src/analysts/trader/agent.go over papertrader.go: what becomes of the messages of signal.execute.*,
-- and of the executions that the risk manager publishes there.
use navier_stocks.Base.{
  ℕ, ◌≡◌, refl, ap, sym, false, Option, none, some, List, [], ◌∷◌, String, Option-cases, ◌⊎◌, inl,
  inr,
}
use navier_stocks.Float.{Float64, nought}
use navier_stocks.Models.{TradeIntent, TradeExecution, validate_execution, validate_intent}
use navier_stocks.Database.Positions.{has_ref}
use navier_stocks.Risk.Executor.{build_execution}
use navier_stocks.Risk.Executor.Orders.{build_execution_valid}
use navier_stocks.Trader.{Fill, ExecuteError}
use navier_stocks.Trader.PaperTrader.{Ledger, Faults, pos_from_exec, execute}
use navier_stocks.Trader.PaperTrader.Opening.{no_faults, opened_by, execute_opens}
use navier_stocks.Trader.PaperTrader.Ledgers.{IsLedger, pos_from_exec_valid, execute-IsLedger}
use navier_stocks.Trader.PaperTrader.Closings.{IsEntryReason, build_execution_opens}
use navier_stocks.Trader.Gateway.{Answer, ack, handle_execution, answer}

module _ {F S : Type 0} ⦃fl : Float64 F⦄ where
  -- What the handler may answer to a payload, with the backend's new state.
  pub record Answers (trader : TradeExecution F → S → Fill F × S)
      (payload : Option (TradeExecution F)) (s : S) (r : Answer × S) : Type 0 where
    pub answered :
        (r.0 ≡ ack)
        ⊎ ((exec : TradeExecution F) × (error : ExecuteError) × (payload ≡ some exec)
            × (validate_execution exec ≡ none)
            × (trader exec s ≡ (Fill.rejected error, r.1)))
    pub state :
        (r.1 ≡ s)
        ⊎ ((exec : TradeExecution F) × (payload ≡ some exec)
            × (validate_execution exec ≡ none)
            × (r.1 ≡ (trader exec s).1))

  answer-Answers :
      (trader : TradeExecution F → S → Fill F × S) (exec : TradeExecution F) (s : S)
      → validate_execution exec ≡ none
      → (r : Fill F × S) → trader exec s ≡ r
      → Answers trader (some exec) s (answer r)
  answer-Answers trader exec s v (Fill.filled result, s') e = record {
    answered = inl refl;
    state = inr (exec, refl, v, sym (ap (λ r. r.1) e));
  }
  answer-Answers trader exec s v (Fill.rejected error, s') e = record {
    answered = inr (exec, error, refl, v, e);
    state = inr (exec, refl, v, sym (ap (λ r. r.1) e));
  }

  -- A message is redelivered only if it is a valid execution that the backend rejected; every other
  -- one is acknowledged, and a payload that is no valid execution does not reach the backend.
  pub handle_execution-Answers :
      (trader : TradeExecution F → S → Fill F × S) (payload : Option (TradeExecution F)) (s : S)
      → Answers trader payload s (handle_execution trader payload s)
  unfolding handle_execution
  handle_execution-Answers trader none s = record { answered = inl refl; state = inl refl }
  handle_execution-Answers trader (some exec) s = elim (Option-cases (validate_execution exec)) [
    | inl valid ↦ rw valid (answer-Answers trader exec s valid (trader exec s) refl)
    | inr (message, e) ↦ rw e (record { answered = inl refl; state = inl refl })
  ]

module _ {F : Type 0} ⦃fl : Float64 F⦄ where
  -- Deliveries in a row: the driver's faults, the time, and the decoded payload of each.
  abbrev pub deliver_all : List (Faults × ℕ × Option (TradeExecution F)) → Ledger F → Ledger F
  deliver_all [] l = l
  deliver_all ((faults, millis, payload) ∷ deliveries) l =
      deliver_all deliveries (handle_execution (execute faults millis) payload l).1

  handle_execution-IsLedger :
      (faults : Faults) (millis : ℕ) (payload : Option (TradeExecution F)) (l : Ledger F)
      → IsLedger l
      → IsLedger (handle_execution (execute faults millis) payload l).1
  handle_execution-IsLedger faults millis payload l v =
      elim (handle_execution-Answers (execute faults millis) payload l).state [
        | inl same ↦ rw same v
        | inr (exec, _, _, e) ↦ rw e (execute-IsLedger faults millis exec l v)
      ]

  -- Whatever is delivered, in whatever order and however often, and whatever the driver fails, the
  -- ledger keeps its invariant.
  pub deliver_all-IsLedger :
      (deliveries : List (Faults × ℕ × Option (TradeExecution F))) (l : Ledger F)
      → IsLedger l
      → IsLedger (deliver_all deliveries l)
  deliver_all-IsLedger [] l v = v
  deliver_all-IsLedger ((faults, millis, payload) ∷ deliveries) l v =
      deliver_all-IsLedger deliveries (handle_execution (execute faults millis) payload l).1
        (handle_execution-IsLedger faults millis payload l v)

  -- While no call of the database driver fails: an execution that the risk manager built from a valid
  -- intent, whose signal reason is no exit reason, whose reference is new to the table and whose
  -- position has positive boundaries, opens its position and is acknowledged; delivered again, it is
  -- acknowledged and changes nothing.
  pub risk_execution_opens :
      (capital : F) (sector : String) (nanos millis later : ℕ) (intent : TradeIntent F)
      (exec : TradeExecution F) (l : Ledger F)
      → validate_intent intent ≡ none
      → IsEntryReason intent.signal_reason
      → build_execution capital sector nanos intent ≡ some exec
      → has_ref exec.execution_ref l.table.rows ≡ false
      → fl.le (pos_from_exec exec).stop_loss nought ≡ false
      → fl.le (pos_from_exec exec).take_profit nought ≡ false
      → (handle_execution (execute no_faults millis) (some exec) l ≡ (ack, opened_by exec l))
        × (handle_execution (execute no_faults later) (some exec) (opened_by exec l)
            ≡ (ack, opened_by exec l))
  unfolding handle_execution
  risk_execution_opens capital sector nanos millis later intent exec l v r h fresh stop target =
      let valid = build_execution_valid capital sector nanos intent exec v h in
      let ok = pos_from_exec_valid exec valid stop target in
      let opens = build_execution_opens capital sector nanos intent exec r h in
      let (first, again) = execute_opens millis later exec l opens fresh ok in
      (rw (valid, first) refl, rw (valid, again) refl)
