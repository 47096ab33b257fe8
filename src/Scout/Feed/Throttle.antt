-- ===== src/Scout/Feed/Throttle.antt =====
-- src/analysts/quantitative/feed.go: the throttle of the price stream.
use navier_stocks.Base.{
  ℕ, ◌+◌, ◌≤◌, ◌≡◌, refl, ap, ◌∙◌, inl, inr, Bool, false, Option, none, some, List, [], ◌∷◌, String,
  arith, if◌then◌else◌, Bool-cases,
}
use navier_stocks.Base.Int.{ℤ}
use navier_stocks.Base.Text.{str_eq, is_empty}
use navier_stocks.Base.Dict.{lookup, lookup-insert}
use navier_stocks.Float.{Float64}
use navier_stocks.Scout.TickStore.{TickStore, append}
use navier_stocks.Scout.TickerStore
use navier_stocks.Scout.TickerStore.{TickerStore}
use navier_stocks.Scout.Universe.{Universe}
use navier_stocks.Scout.Feed.{
  Publication, FeedConnector, Update, price_publish_interval, new_feed_connector, token_symbol,
  publish_price, is_throttled, tick_of, ingest, process_update, process_updates, process_snapshot,
}

abbrev pub IsLater : Option ℕ → ℕ → Type 0
IsLater none now = Unit
IsLater (some last) now = last + price_publish_interval ≤ now

IsLater-of_open : (last : Option ℕ) (now : ℕ) → is_throttled last now ≡ false → IsLater last now
IsLater-of_open none now h = tt
IsLater-of_open (some l) now h = ground (arith, h)

module _ {F : Type 0} where
  -- When a symbol was published for the last time.
  abbrev pub last_at : String → List (Publication F) → Option ℕ
  last_at symbol [] = none
  last_at symbol (p ∷ ps) = if str_eq p.symbol symbol then some p.at else last_at symbol ps

  -- Each publication of a symbol comes an interval at least after the one before it.
  abbrev pub IsSpaced : List (Publication F) → Type 0
  IsSpaced [] = Unit
  IsSpaced (p ∷ ps) = IsLater (last_at p.symbol ps) p.at × IsSpaced ps

  -- The throttle's map holds the last publication of each symbol.
  pub record IsThrottled (fc : FeedConnector F) : Type 0 where
    pub spaced : IsSpaced fc.published
    pub tracked : (k : String) → lookup k fc.last_price_pub ≡ last_at k fc.published

  publish_price-IsThrottled :
      (now : ℕ) (symbol : String) (price : F) (millis : ℤ) (fc : FeedConnector F)
      → IsThrottled fc
      → IsThrottled (publish_price now symbol price millis fc)
  unfolding publish_price
  publish_price-IsThrottled now symbol price millis fc t = elim (Bool-cases fc.wired) [
    | inl wired ↦ elim (Bool-cases (is_throttled (lookup symbol fc.last_price_pub) now)) [
      | inl early ↦ simp (wired, early) t
      | inr late ↦
          simp (wired, late)
            (record {
              spaced = (
                rw (← t.tracked symbol)
                    (IsLater-of_open (lookup symbol fc.last_price_pub) now late),
                t.spaced,
              );
              tracked = λ k.
                  lookup-insert symbol k now fc.last_price_pub
                  ∙ ap (λ o. if str_eq symbol k then some now else o) (t.tracked k);
            })
    ]
    | inr off ↦ simp off t
  ]

  ingest-IsThrottled :
      (up : Update F) (symbol : String) (found : Option (TickStore F) × TickerStore F)
      (fc : FeedConnector F)
      → IsThrottled fc
      → IsThrottled (ingest up symbol found fc)
  ingest-IsThrottled up symbol (none, ts) fc t = record { spaced = t.spaced; tracked = t.tracked }
  ingest-IsThrottled up symbol (some s, ts) fc t =
      publish_price-IsThrottled up.now symbol up.data_point.ltp up.data_point.ts_in_millis
        (record fc { ts = TickerStore.put ts symbol (append s (tick_of up.data_point)) })
        (record { spaced = t.spaced; tracked = t.tracked })

module _ {F : Type 0} ⦃fl : Float64 F⦄ where
  process_update-IsThrottled :
      (up : Update F) (found : Option String) (fc : FeedConnector F)
      → IsThrottled fc
      → IsThrottled (process_update up found fc)
  process_update-IsThrottled up none fc t = t
  process_update-IsThrottled up (some symbol) fc t = elim (Bool-cases (is_empty symbol)) [
    | inl unnamed ↦ simp unnamed t
    | inr named ↦ simp named (ingest-IsThrottled up symbol (TickerStore.store fc.ts symbol) fc t)
  ]

  process_updates-IsThrottled :
      (ups : List (Update F)) (fc : FeedConnector F)
      → IsThrottled fc
      → IsThrottled (process_updates ups fc)
  unfolding process_updates
  process_updates-IsThrottled [] fc t = t
  process_updates-IsThrottled (up ∷ ups) fc t =
      let found = token_symbol fc.universe up.token_key in
      process_updates-IsThrottled ups (process_update up found fc)
        (process_update-IsThrottled up found fc t)

  -- The polls of a connector, one snapshot each.
  unfoldable pub poll_all : List (Option (List (Update F))) → FeedConnector F → FeedConnector F
  unfolding process_snapshot
  poll_all [] fc = fc
  poll_all (snapshot ∷ snapshots) fc = poll_all snapshots (process_snapshot snapshot fc)

  poll_all-IsThrottled :
      (snapshots : List (Option (List (Update F)))) (fc : FeedConnector F)
      → IsThrottled fc
      → IsThrottled (poll_all snapshots fc)
  unfolding poll_all
  poll_all-IsThrottled [] fc t = t
  poll_all-IsThrottled (none ∷ snapshots) fc t = poll_all-IsThrottled snapshots fc t
  poll_all-IsThrottled (some ups ∷ snapshots) fc t =
      poll_all-IsThrottled snapshots (process_updates ups fc) (process_updates-IsThrottled ups fc t)

  -- Whatever snapshots a new connector polls, and whatever its clock reads, it publishes the price of a
  -- symbol a second at least after the last time.
  pub poll_all-IsSpaced :
      (ts : TickerStore F) (u : Universe) (wired : Bool)
      (snapshots : List (Option (List (Update F))))
      → IsSpaced (poll_all snapshots (new_feed_connector ts u wired)).published
  unfolding new_feed_connector lookup
  poll_all-IsSpaced ts u wired snapshots =
      (poll_all-IsThrottled snapshots (new_feed_connector ts u wired)
        (record { spaced = tt; tracked = λ k. refl })).spaced
