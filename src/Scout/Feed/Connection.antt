-- ===== src/Scout/Feed/Connection.antt =====
-- src/analysts/quantitative/feed.go: how the connector keeps its connection. The time that it waits
-- for the market, and between two attempts, is not modelled, but that it may be stopped there.
pub mod Recovery
use navier_stocks.Base.{
  ℕ, ◌≡◌, refl, sym, ap, ◌∙◌, ◌⊎◌, inl, inr, Bool, true, false, Option, none, some, List, [], ◌∷◌,
  String, if◌then◌else◌, Bool-cases,
}
use navier_stocks.Groww.Types.{FeedInstrument}
use navier_stocks.Groww.Feed.{
  FeedMessage, FeedClient, connect, subscribe, consume, close, reconnect,
}
use navier_stocks.Groww.Feed.Subscriptions.{subscribe_ltp}

abbrev pub max_retries : ℕ
max_retries = 20

-- What the loop meets after `Consume` returns: whether it is stopped then, while the market is closed or
-- while it waits for 60 seconds, what each attempt to connect answers, and the subscription.
pub record Lost : Type 0 where
  pub is_stopped : Bool
  pub stopped_by_night : Bool
  pub stopped_in_wait : Bool
  pub dial : ℕ → Option String
  pub subscribed : Option String

-- The client when the loop goes on, or when it ends.
pub data Next (F : Type 0) : Type 0 where
  goes_on : FeedClient F → Next F
  ends : FeedClient F → Next F

module _ {F : Type 0} where
  abbrev pub wait : Lost → FeedClient F → Next F
  wait l f = if l.stopped_in_wait then ends f else goes_on f

  abbrev pub after_subscribe : Lost → Option String × FeedClient F → Next F
  after_subscribe l (some message, f) = wait l f
  after_subscribe l (none, f) = goes_on f

  abbrev pub after_reconnect :
      Lost → List FeedInstrument → Option String × FeedClient F × List ℕ → Next F
  after_reconnect l instruments (some message, f, sleeps) = wait l f
  after_reconnect l instruments (none, f, sleeps) =
      after_subscribe l (subscribe_ltp l.subscribed false instruments f)

  -- The rest of a round of `consumeWithReconnect`, after `Consume`.
  unfoldable pub recover : Lost → List FeedInstrument → FeedClient F → Next F
  unfolding reconnect subscribe_ltp
  recover l instruments f =
      if l.is_stopped
      then ends f
      else if l.stopped_by_night
      then ends f
      else after_reconnect l instruments (reconnect l.dial max_retries f)

  -- `consumeWithReconnect`, over what each `Consume` reads and what follows it; `goes_on` says that it
  -- still runs.
  abbrev pub then_on : (FeedClient F → Next F) → Next F → Next F
  then_on more (goes_on f) = more f
  then_on more (ends f) = ends f

  unfoldable pub consume_with_reconnect :
      List FeedInstrument → List (List (Option (FeedMessage F)) × Lost) → FeedClient F → Next F
  unfolding consume recover
  consume_with_reconnect instruments [] f = goes_on f
  consume_with_reconnect instruments ((ms, l) ∷ rounds) f =
      then_on (consume_with_reconnect instruments rounds) (recover l instruments (consume ms f))

  abbrev pub after_start :
      Option String → Option String → Option String × FeedClient F → Option String × FeedClient F
  after_start on_write on_close (some message, f) = (some message, (close on_write on_close f).1)
  after_start on_write on_close (none, f) = (none, f)

  abbrev pub after_connect :
      Option String
      → Option String
      → Option String
      → List FeedInstrument
      → Option String × FeedClient F
      → Option String × FeedClient F
  after_connect subscribed on_write on_close instruments (some message, f) = (some message, f)
  after_connect subscribed on_write on_close instruments (none, f) =
      after_start on_write on_close (subscribe_ltp subscribed false instruments f)

  -- `Start`, up to its goroutines
  unfoldable pub start :
      Option String
      → Option String
      → Option String
      → Option String
      → List FeedInstrument
      → FeedClient F
      → Option String × FeedClient F
  unfolding connect subscribe_ltp close
  start dialled subscribed on_write on_close instruments f =
      after_connect subscribed on_write on_close instruments (connect dialled f)

  -- `Stop`, of the client
  unfoldable pub stop : Option String → Option String → FeedClient F → FeedClient F
  unfolding close
  stop on_write on_close f = (close on_write on_close f).1
