-- ===== src/Risk/Agent.antt =====
-- src/analysts/riskmanager/agent.go: the agent's state and its handlers. Decoding a payload is
-- encoding/json's, so a handler is given the decoded value, or `none` for a payload that is not one.
-- The position store is the table of Database.Positions, which the agent does not own: the state
-- says only whether it is wired.
pub mod Pipeline
pub mod Guarantees
use navier_stocks.Base.{
  ℕ, suc, ◌+◌, ◌*◌, Bool, true, false, ◌||◌, Option, none, some, List, [], ◌∷◌, String, ltb,
  if◌then◌else◌,
}
use navier_stocks.Base.Text.{is_empty}
use navier_stocks.Base.Dict
use navier_stocks.Base.Dict.{Dict}
use navier_stocks.Float.{Float64, nought}
use navier_stocks.Models.{TradeIntent, TradeExecution, PriceTick, SentimentScore, validate_intent}
use navier_stocks.Risk.{Refusal, Fetched}
use navier_stocks.Risk.Exposure.{
  Exposure, new_exposure, entry_gate, register, default_max_sector_positions,
  default_max_total_positions,
}
use navier_stocks.Risk.Gates.{time_window_guard, bias_gate, sentiment_gate}
use navier_stocks.Risk.Allocator.{load_total_capital}
use navier_stocks.Risk.Executor.{Link, Sent, build_execution, publish_execution}

-- `Analyst`. `sent` is what has been published, newest first; `sq_done` is the day of the last
-- square-off, `none` for the empty text.
pub record Agent (F : Type 0) : Type 0 where
  pub link : Option (Link F)
  pub sent : List (Sent F)
  pub accepted : ℕ
  pub exposure : Option (Exposure F)
  pub sectors : Option (String → String)
  pub scores : Option (String → Fetched (SentimentScore F))
  pub min_conf : F
  pub capital : F
  pub positions_wired : Bool
  pub sq_done : Option ℕ
  pub all_closed : Bool
  pub last_price : Dict F
  pub last_price_at : Dict ℕ

-- What a handler does with its message.
pub data Reply : Type 0 where
  ack : Reply
  nak_with_delay : ℕ → Reply

abbrev pub second : ℕ
second = 1_000_000_000

-- The first error of two steps.
abbrev pub or_else : Option Refusal → Option Refusal → Option Refusal
or_else (some error) next = some error
or_else none next = next

abbrev pub is_insufficient : Refusal → Bool
is_insufficient Refusal.insufficient_capital = true
is_insufficient _ = false

-- Whether an intent is valid and passes every gate.
abbrev pub both_pass : Option String → Option Refusal → Bool
both_pass none none = true
both_pass (some message) refusal = false
both_pass none (some refusal) = false

module _ {F : Type 0} ⦃fl : Float64 F⦄ where
  -- `NewAgent`, once JetStream has answered with a link, over the resolved sectors, the confidence
  -- floor and the capital of the environment. Neither `scores` nor `positions` is set.
  unfoldable pub new_agent : Link F → (String → String) → F → F → Agent F
  new_agent link sectors min_conf capital = record {
    link = some link;
    sent = [];
    accepted = 0;
    exposure = some (new_exposure default_max_sector_positions default_max_total_positions);
    sectors = some sectors;
    scores = none;
    min_conf = min_conf;
    capital = capital;
    positions_wired = false;
    sq_done = none;
    all_closed = false;
    last_price = [];
    last_price_at = [];
  }

  -- `(*Analyst).handlePrice`
  unfoldable pub handle_price : ℕ → Option (PriceTick F) → Agent F → Agent F
  handle_price now none g = g
  handle_price now (some tick) g =
      if is_empty tick.ticker || fl.le tick.price nought then g else record g {
        last_price = Dict.insert tick.ticker tick.price g.last_price;
        last_price_at = Dict.insert tick.ticker now g.last_price_at;
      }

  -- `(*Analyst).LatestPrice`
  unfoldable pub latest_price : Agent F → String → F
  latest_price g ticker = Dict.lookup_or ticker g.last_price nought

  -- `(*Analyst).PriceStale`
  unfoldable pub price_stale : Agent F → String → ℕ → ℕ → Bool
  price_stale g ticker threshold now = elim (Dict.lookup ticker g.last_price_at) [
    | none ↦ true
    | some t ↦ ltb (t + threshold) now
  ]

  -- `(*Analyst).sectorOf`, of exposure.go
  unfoldable pub sector_of : Agent F → String → String
  sector_of g ticker = elim g.sectors [ none ↦ "UNKNOWN" | some sector ↦ sector ticker ]

  exposure_gates : Option (Exposure F) → String → TradeIntent F → Option Refusal
  exposure_gates none sector intent = none
  exposure_gates (some e) sector intent = or_else (entry_gate e sector) (bias_gate e intent.side)

  -- `(*Analyst).evaluate`, at the time of the agent's clock
  unfoldable pub evaluate : Option ℕ → ℕ → Agent F → TradeIntent F → Option Refusal
  unfolding exposure_gates
  evaluate loc clock g intent = or_else (time_window_guard loc clock) (
      or_else (exposure_gates g.exposure (sector_of g intent.ticker) intent)
        (sentiment_gate g.scores intent.ticker g.min_conf))

  -- The registration of an execution that has been published.
  abbrev register_in : Option (Exposure F) → TradeExecution F → Option (Exposure F)
  register_in none exec = none
  register_in (some e) exec = some (register e exec.side exec.sector)

  after_publish :
      Agent F → TradeExecution F → Option Refusal × List (Sent F) → Option Refusal × Agent F
  after_publish g exec (some error, sent) = (some error, record g { sent = sent })
  after_publish g exec (none, sent) =
      (none, record g { sent = sent; exposure = register_in g.exposure exec })

  -- `(*Analyst).promote`, of executor.go
  unfoldable pub promote : ℕ → Agent F → TradeIntent F → Option Refusal × Agent F
  unfolding after_publish
  promote nanos g intent =
      elim (build_execution g.capital (sector_of g intent.ticker) nanos intent) [
        | none ↦ (some Refusal.insufficient_capital, g)
        | some exec ↦ after_publish g exec (publish_execution g.link g.sent exec)
      ]

  settle : Option Refusal × Agent F → Agent F × Reply
  settle (none, g) = (record g { accepted = suc g.accepted }, ack)
  settle (some error, g) = (g, if is_insufficient error then ack else nak_with_delay (5 * second))

  -- `(*Analyst).handleIntent`
  unfoldable pub handle_intent :
      Option ℕ → ℕ → ℕ → Option (TradeIntent F) → Agent F → Agent F × Reply
  unfolding settle
  handle_intent loc clock nanos none g = (g, ack)
  handle_intent loc clock nanos (some intent) g =
      elim (both_pass (validate_intent intent) (evaluate loc clock g intent)) [
        | true ↦ settle (promote nanos g intent)
        | false ↦ (g, ack)
      ]
