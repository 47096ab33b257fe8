-- ===== src/Scout/Feed/Connection/Recovery.antt =====
-- src/analysts/quantitative/feed.go: what a lost connection leads to.
use mathlib.Core.Path.{subst}
use navier_stocks.Base.{
  ℕ, ◌<◌, ◌≡◌, ◌⊎◌, refl, sym, inl, inr, true, false, Option, none, some, List, ◌∷◌, String,
  Bool-cases, arith,
}
use navier_stocks.Groww.Types.{FeedInstrument}
use navier_stocks.Groww.Feed.{Subscription, FeedClient, reconnect}
use navier_stocks.Groww.Feed.Subscriptions.{subscribe_ltp}
use navier_stocks.Groww.Feed.Backoff.{Fails, Reconnected, reconnect-Reconnected}
use navier_stocks.Scout.Feed.Connection.{
  Lost, Next, goes_on, ends, max_retries, wait, after_subscribe, after_reconnect, recover,
}

abbrev pub ltp_subscription : List FeedInstrument → Subscription
ltp_subscription instruments = record {
  action = "subscribe";
  feed_type = "ltp";
  instruments = instruments;
}

-- The loop is not stopped before it reconnects.
abbrev pub Tries : Lost → Type 0
Tries l = (l.is_stopped ≡ false) × (l.stopped_by_night ≡ false)

-- An attempt connects, the first after some that failed.
abbrev pub Connects : Lost → Type 0
Connects l = (k : ℕ) × (k < max_retries) × ((i : ℕ) → i < k → Fails l.dial i) × (l.dial k ≡ none)

-- No attempt connects.
abbrev pub StaysDown : Lost → Type 0
StaysDown l = (i : ℕ) → i < max_retries → Fails l.dial i

module _ {F : Type 0} where
  abbrev pub online : FeedClient F → FeedClient F
  online f = record f { has_conn = true; connected = true }

  abbrev pub subscribed_again : List FeedInstrument → FeedClient F → FeedClient F
  subscribed_again instruments f = record (online f) {
    sent = ltp_subscription instruments ∷ f.sent;
  }

  -- The ends of a round, each with all that leads to it: connected and subscribed again, connected
  -- without a subscription, or without a connection; and stopped before it reconnects, in the wait
  -- after a subscription that failed, or in the wait after attempts that all failed.
  pub data Recovery (l : Lost) (instruments : List FeedInstrument) (f : FeedClient F)
      : Next F → Type 0 where
    resumed :
        Tries l
        → Connects l
        → l.subscribed ≡ none
        → Recovery l instruments f (goes_on (subscribed_again instruments f))
    unsubscribed :
        (message : String)
        → Tries l
        → Connects l
        → l.subscribed ≡ some message
        → l.stopped_in_wait ≡ false
        → Recovery l instruments f (goes_on (online f))
    offline :
        Tries l → StaysDown l → l.stopped_in_wait ≡ false → Recovery l instruments f (goes_on f)
    stopped :
        (l.is_stopped ≡ true) ⊎ (l.stopped_by_night ≡ true) → Recovery l instruments f (ends f)
    stopped_unsubscribed :
        (message : String)
        → Tries l
        → Connects l
        → l.subscribed ≡ some message
        → l.stopped_in_wait ≡ true
        → Recovery l instruments f (ends (online f))
    stopped_offline :
        Tries l → StaysDown l → l.stopped_in_wait ≡ true → Recovery l instruments f (ends f)

  subscribe-Recovery :
      (l : Lost) (instruments : List FeedInstrument) (f : FeedClient F) (answer : Option String)
      → l.subscribed ≡ answer
      → Tries l
      → Connects l
      → Recovery l instruments f
          (after_subscribe l (subscribe_ltp answer false instruments (online f)))
  unfolding subscribe_ltp
  subscribe-Recovery l instruments f none e on back = Recovery.resumed on back e
  subscribe-Recovery l instruments f (some message) e on back =
      elim (Bool-cases l.stopped_in_wait) [
        | inl ended ↦ simp ended (Recovery.stopped_unsubscribed message on back e ended)
        | inr waits ↦ simp waits (Recovery.unsubscribed message on back e waits)
      ]

  wait-Recovery :
      (l : Lost) (instruments : List FeedInstrument) (f : FeedClient F)
      → Tries l
      → StaysDown l
      → Recovery l instruments f (wait l f)
  wait-Recovery l instruments f on down = elim (Bool-cases l.stopped_in_wait) [
    | inl ended ↦ simp ended (Recovery.stopped_offline on down ended)
    | inr waits ↦ simp waits (Recovery.offline on down waits)
  ]

  reconnect-Recovery :
      (l : Lost) (instruments : List FeedInstrument) (f : FeedClient F)
      (r : Option String × FeedClient F × List ℕ)
      → Tries l
      → Reconnected l.dial max_retries f r
      → Recovery l instruments f (after_reconnect l instruments r)
  reconnect-Recovery l instruments f (some message, f', sleeps) on back = elim back.outcome [
    | inl (e, same, dialled, before) ↦ absurd (ground (arith, e))
    | inr (m, e, same, all) ↦
        subst (λ (g : FeedClient F). Recovery l instruments f (wait l g)) (sym same)
          (wait-Recovery l instruments f on (λ i h. back.failed i (omega (arith, h, all))))
  ]
  reconnect-Recovery l instruments f (none, f', sleeps) on back = elim back.outcome [
    | inl (e, same, dialled, before) ↦
        subst
          (λ (g : FeedClient F).
            Recovery l instruments f
              (after_subscribe l (subscribe_ltp l.subscribed false instruments g)))
          (sym same)
          (subscribe-Recovery l instruments f l.subscribed refl on
            (back.tried, before, back.failed, dialled))
    | inr (m, e, same, all) ↦ absurd (ground (arith, e))
  ]

  -- After a lost connection, if the loop is stopped at once or while the market is closed, it ends with
  -- the client as it was. Otherwise, if one of at most 20 attempts connects, the client is connected, and
  -- subscribed again if the subscription is sent; if sending it fails, it stays without one. If all 20
  -- attempts fail, the client is as it was. In these last two cases the loop ends if it is stopped while
  -- it waits, and in every other case it goes on.
  pub recover-Recovery :
      (l : Lost) (instruments : List FeedInstrument) (f : FeedClient F)
      → Recovery l instruments f (recover l instruments f)
  unfolding recover
  recover-Recovery l instruments f = elim (Bool-cases l.is_stopped) [
    | inl ended ↦ simp ended (Recovery.stopped (inl ended))
    | inr running ↦ simp running (elim (Bool-cases l.stopped_by_night) [
      | inl ended ↦ simp ended (Recovery.stopped (inr ended))
      | inr day ↦ simp day (
          reconnect-Recovery l instruments f (reconnect l.dial max_retries f) (running, day)
            (reconnect-Reconnected l.dial max_retries f))
    ])
  ]
