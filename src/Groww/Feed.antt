-- ===== src/Groww/Feed.antt =====
-- src/pkg/groww/feed.go: the WebSocket client, over what the connection and JSON answer. A callback is
-- known by whether it is set, and its calls are logged, newest first; keep-alive pings, deadlines and
-- locks are not modelled.
pub mod Backoff
pub mod Snapshots
pub mod Subscriptions
use navier_stocks.Base.{
  ℕ, zero, suc, ◌*◌, Bool, true, false, Option, none, some, List, [], ◌∷◌, ◌++◌, String, ltb,
  if◌then◌else◌, map,
}
use navier_stocks.Base.Try.{Try, ok, err}
use navier_stocks.Base.Text.{concat, decimal_text, is_empty}
use navier_stocks.Groww.Types.{FeedInstrument, LtpData}
use navier_stocks.Groww.FeedTypes.{FeedMetadata, IndexData, MarketDepthData}

-- A value for each exchange, segment and token: a map of maps, in the order of a walk.
abbrev pub Snapshot : Type 0 → Type 0
Snapshot A = List (String × List (String × List (String × A)))

-- A message on the wire.
pub record Subscription : Type 0 where
  pub action : String
  pub feed_type : String
  pub instruments : List FeedInstrument

-- A call of a callback.
pub data Call (F : Type 0) : Type 0 where
  on_data : FeedMetadata → Call F
  on_ltp : LtpData F → FeedMetadata → Call F
  on_depth : MarketDepthData F → FeedMetadata → Call F

-- `FeedClient`. `has_conn` says whether `conn` is set; the snapshots are empty before a message.
pub record FeedClient (F : Type 0) : Type 0 where
  pub token : String
  pub feed_url : String
  pub has_conn : Bool
  pub connected : Bool
  pub ltp : Snapshot (LtpData F)
  pub index : Snapshot (IndexData F)
  pub depth : Snapshot (MarketDepthData F)
  pub on_data_set : Bool
  pub on_ltp_set : Bool
  pub on_depth_set : Bool
  pub calls : List (Call F)
  pub sent : List Subscription

-- What a message decodes to, each part where its key is there.
pub record FeedMessage (F : Type 0) : Type 0 where
  pub meta : FeedMetadata
  pub ltp : Option (Try (Snapshot (LtpData F)))
  pub depth : Option (Try (Snapshot (MarketDepthData F)))
  pub index : Option (Try (Snapshot (IndexData F)))

abbrev pub first_backoff : ℕ
first_backoff = 100_000_000

abbrev pub max_backoff : ℕ
max_backoff = 30_000_000_000

abbrev pub next_backoff : ℕ → ℕ
next_backoff b = if ltb max_backoff (b * 2) then max_backoff else b * 2

abbrev pub first_error : Option String → Option String → Option String
first_error (some message) other = some message
first_error none other = other

abbrev pub gave_up : ℕ → String
gave_up max_retries =
    concat "groww feed: reconnect failed after " (concat (decimal_text max_retries) " attempts")

module _ {A : Type 0} where
  abbrev pub tokens_of : List (String × A) → List A
  tokens_of entries = map (λ (e : String × A). e.1) entries

  abbrev pub segments_of : List (String × List (String × A)) → List A
  segments_of [] = []
  segments_of ((segment, entries) ∷ segments) = tokens_of entries ++ segments_of segments

  -- The three nested loops of the handlers.
  abbrev pub values_of : Snapshot A → List A
  values_of [] = []
  values_of ((exchange, segments) ∷ exchanges) = segments_of segments ++ values_of exchanges

module _ {F : Type 0} where
  -- `NewFeedClient`, of the two variables of the environment
  unfoldable pub new_feed_client : String → String → String → FeedClient F
  new_feed_client access_token env_token env_url = record {
    token = if is_empty access_token then env_token else access_token;
    feed_url = if is_empty env_url then "wss://api.groww.in/v1/feed" else env_url;
    has_conn = false;
    connected = false;
    ltp = [];
    index = [];
    depth = [];
    on_data_set = false;
    on_ltp_set = false;
    on_depth_set = false;
    calls = [];
    sent = [];
  }

  abbrev pub dialled : Option String → FeedClient F → Option String × FeedClient F
  dialled (some message) f = (some message, f)
  dialled none f = (none, record f { has_conn = true; connected = true })

  -- `Connect`, with the error of the dialling or of the deadline
  unfoldable pub connect : Option String → FeedClient F → Option String × FeedClient F
  connect answer f = dialled answer f

  abbrev pub send : Option String → Subscription → FeedClient F → Option String × FeedClient F
  send (some message) sub f = (some message, f)
  send none sub f = (none, record f { sent = sub ∷ f.sent })

  abbrev pub request :
      Option String
      → String
      → String
      → List FeedInstrument
      → FeedClient F
      → Option String × FeedClient F
  request answer action feed_type instruments f =
      if f.has_conn
      then send answer
          (record { action = action; feed_type = feed_type; instruments = instruments }) f
      else (some "groww feed: not connected", f)

  -- `subscribe`, with the answer of `WriteJSON`
  unfoldable pub subscribe :
      Option String → String → List FeedInstrument → FeedClient F → Option String × FeedClient F
  subscribe answer feed_type instruments f = request answer "subscribe" feed_type instruments f

  -- `unsubscribe`
  unfoldable pub unsubscribe :
      Option String → String → List FeedInstrument → FeedClient F → Option String × FeedClient F
  unsubscribe answer feed_type instruments f = request answer "unsubscribe" feed_type instruments f

  abbrev pub handle_ltp :
      Option (Try (Snapshot (LtpData F))) → FeedMetadata → Bool → FeedClient F → FeedClient F
  handle_ltp none meta cb f = f
  handle_ltp (some (err message)) meta cb f = f
  handle_ltp (some (ok parsed)) meta cb f = record f {
    ltp = parsed;
    calls =
        if cb
        then map (λ (v : LtpData F). Call.on_ltp v meta) (values_of parsed) ++ f.calls
        else f.calls;
  }

  abbrev pub handle_depth :
      Option (Try (Snapshot (MarketDepthData F)))
      → FeedMetadata
      → Bool
      → FeedClient F
      → FeedClient F
  handle_depth none meta cb f = f
  handle_depth (some (err message)) meta cb f = f
  handle_depth (some (ok parsed)) meta cb f = record f {
    depth = parsed;
    calls =
        if cb
        then map (λ (v : MarketDepthData F). Call.on_depth v meta) (values_of parsed) ++ f.calls
        else f.calls;
  }

  abbrev pub handle_index : Option (Try (Snapshot (IndexData F))) → FeedClient F → FeedClient F
  handle_index none f = f
  handle_index (some (err message)) f = f
  handle_index (some (ok parsed)) f = record f { index = parsed }

  -- `dispatch`, of what the message decodes to
  unfoldable pub dispatch : Option (FeedMessage F) → FeedClient F → FeedClient F
  dispatch none f = f
  dispatch (some m) f =
      let calls = if f.on_data_set then Call.on_data m.meta ∷ f.calls else f.calls in
      handle_index m.index (
        handle_depth m.depth m.meta f.on_depth_set
          (handle_ltp m.ltp m.meta f.on_ltp_set (record f { calls = calls })))

  unfoldable pub dispatch_all : List (Option (FeedMessage F)) → FeedClient F → FeedClient F
  unfolding dispatch
  dispatch_all [] f = f
  dispatch_all (m ∷ ms) f = dispatch_all ms (dispatch m f)

  -- `Consume`, over the messages that it reads until the connection fails
  unfoldable pub consume : List (Option (FeedMessage F)) → FeedClient F → FeedClient F
  unfolding dispatch_all
  consume ms f = record (if f.has_conn then dispatch_all ms f else f) { connected = false }

  -- `Close`, with the errors of the two calls
  unfoldable pub close : Option String → Option String → FeedClient F → Option String × FeedClient F
  close on_write on_close f =
      if f.has_conn
      then (first_error on_write on_close, record f { has_conn = false; connected = false })
      else (none, f)

  -- One round of the loop of `Reconnect`, given the rest of it: whether it connected, the client, and how
  -- long it sleeps each time.
  abbrev pub attempted :
      Option String → ℕ → FeedClient F → Bool × FeedClient F × List ℕ → Bool × FeedClient F × List ℕ
  attempted none backoff f rest = (true, (connect none f).1, [])
  attempted (some message) backoff f (done, f', sleeps) = (done, f', backoff ∷ sleeps)

  unfoldable pub reconnect_from :
      (ℕ → Option String) → ℕ → ℕ → ℕ → FeedClient F → Bool × FeedClient F × List ℕ
  unfolding connect
  reconnect_from dial i zero backoff f = (false, f, [])
  reconnect_from dial i (suc left) backoff f =
      attempted (dial i) backoff f (reconnect_from dial (suc i) left (next_backoff backoff) f)

  -- `Reconnect`, with what each attempt answers
  unfoldable pub reconnect :
      (ℕ → Option String) → ℕ → FeedClient F → Option String × FeedClient F × List ℕ
  unfolding reconnect_from decimal_text
  reconnect dial max_retries f =
      let (done, f', sleeps) = reconnect_from dial 0 max_retries first_backoff f in
      (if done then none else some (gave_up max_retries), f', sleeps)
