-- ===== src/Sentiment/Scraper.antt =====
-- src/analysts/sentiment/scraper.go: the deduplicating scraper and the reading of a feed. The hash
-- (the first eight bytes of a SHA-256, in hexadecimal), the cleaning of HTML and the parsing of one
-- date are arguments; so is what the source fetched. The time to live is positive.
pub mod Again
pub mod Dedup
pub mod Prune
pub mod Source
use navier_stocks.Base.{
  ℕ, ◌+◌, Bool, true, false, Option, none, some, List, [], ◌∷◌, String, ltb, if◌then◌else◌,
}
use navier_stocks.Base.Try.{Try, ok, err}
use navier_stocks.Base.Text.{is_empty}
use navier_stocks.Base.Trim.{trim}
use navier_stocks.Base.Dict.{Dict, lookup, insert, delete, keys}
use navier_stocks.Models.{Article}

-- `rssItem`
pub record RssItem : Type 0 where
  pub title : String
  pub link : String
  pub pub_date : String
  pub source : String
  pub desc : String

-- `Scraper`, without its lock
pub record Scraper : Type 0 where
  pub ttl : ℕ
  pub seen : Dict ℕ

-- `NewScraper`
unfoldable pub new_scraper : ℕ → Scraper
new_scraper ttl = record { ttl = ttl; seen = [] }

-- The first layout by which a date parses: the loop of `parsePubDate`.
unfoldable pub parse_pub_date : List (String → Option ℕ) → String → Option ℕ
unfolding trim
parse_pub_date [] raw = none
parse_pub_date (layout ∷ layouts) raw = elim (layout (trim raw)) [
  | some t ↦ some t
  | none ↦ parse_pub_date layouts raw
]

-- `parseRSS`, of the items that the XML decodes to
unfoldable pub parse_rss :
    (String → String) → List (String → Option ℕ) → String → List RssItem → List Article
unfolding trim parse_pub_date
parse_rss clean layouts ticker [] = []
parse_rss clean layouts ticker (item ∷ items) =
    record {
      ticker = ticker;
      title = trim item.title;
      url = trim item.link;
      source = trim item.source;
      description = clean item.desc;
      published_at = parse_pub_date layouts item.pub_date;
    }
    ∷ parse_rss clean layouts ticker items

-- `articleHash`
unfoldable pub article_hash : (String → String) → Article → String
article_hash hash a = hash (if is_empty a.url then a.title else a.url)

-- Whether a hash that was first seen at a time is still within the window: `now.Sub(firstSeen) < ttl`.
abbrev pub is_recent : ℕ → ℕ → Option ℕ → Bool
is_recent ttl now none = false
is_recent ttl now (some first) = ltb now (first + ttl)

abbrev pub is_expired : ℕ → ℕ → Option ℕ → Bool
is_expired ttl now none = false
is_expired ttl now (some first) = if ltb now (first + ttl) then false else true

-- The loop of `FetchFresh`: the fresh articles, and what has been seen.
unfoldable pub keep_fresh :
    (String → String) → ℕ → ℕ → List Article → Dict ℕ → List Article × Dict ℕ
unfolding article_hash
keep_fresh hash ttl now [] seen = ([], seen)
keep_fresh hash ttl now (a ∷ rest) seen =
    let h = article_hash hash a in
    let old = is_recent ttl now (lookup h seen) in
    let (fresh, seen') = keep_fresh hash ttl now rest (if old then seen else insert h now seen) in
    (if old then fresh else a ∷ fresh, seen')

-- The loop of `prune` over the hashes of the map.
unfoldable pub prune_keys : ℕ → ℕ → List String → Dict ℕ → Dict ℕ
prune_keys ttl now [] seen = seen
prune_keys ttl now (h ∷ hs) seen =
    prune_keys ttl now hs (if is_expired ttl now (lookup h seen) then delete h seen else seen)

-- `prune`
unfoldable pub prune : ℕ → ℕ → Dict ℕ → Dict ℕ
unfolding prune_keys
prune ttl now seen = prune_keys ttl now (keys seen) seen

abbrev pub after_fetch :
    (String → String) → ℕ → Try (List Article) → Scraper → Try (List Article) × Scraper
after_fetch hash now (err message) s = (err message, s)
after_fetch hash now (ok articles) s =
    let (fresh, seen) = keep_fresh hash s.ttl now articles s.seen in
    (ok fresh, record s { seen = prune s.ttl now seen })

-- `FetchFresh`, at the time `now`
unfoldable pub fetch_fresh :
    (String → String) → ℕ → Try (List Article) → Scraper → Try (List Article) × Scraper
unfolding keep_fresh prune
fetch_fresh hash now fetched s = after_fetch hash now fetched s
