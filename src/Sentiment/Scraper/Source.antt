-- ===== src/Sentiment/Scraper/Source.antt =====
-- src/analysts/sentiment/scraper.go: the Google News source and its rate limiter. The HTTP client, the
-- escaping of a query and the XML of a feed are arguments; so are the clock and the cancellation of a
-- wait. No time is before the limiter's last one.
use navier_stocks.Base.{
  ℕ, ◌+◌, ◌-◌, ◌<◌, ◌≤◌, ◌≡◌, refl, Option, none, some, List, String, arith, ltb, ◌==◌,
  if◌then◌else◌, inl, inr, Bool-cases,
}
use navier_stocks.Base.Text.{concat, is_empty, decimal_text}
use navier_stocks.Base.Try.{Try, ok, err}
use navier_stocks.Models.{Article}
use navier_stocks.Sentiment.Scraper.{RssItem, parse_rss}

-- `rateLimiter`; `last` is none before the first call.
pub record RateLimiter : Type 0 where
  pub min_interval : ℕ
  pub last : Option ℕ

-- `newRateLimiter`
unfoldable pub new_rate_limiter : ℕ → RateLimiter
new_rate_limiter min_interval = record { min_interval = min_interval; last = none }

-- How long a call has to sleep.
abbrev pub pause : ℕ → Option ℕ → ℕ → ℕ
pause min_interval none now = 0
pause min_interval (some last) now = min_interval - (now - last)

-- `Wait`, called at `now`, with the error of a context that is cancelled in the sleep; `woken` is what the
-- clock reads afterwards.
unfoldable pub wait : Option String → ℕ → ℕ → RateLimiter → Option String × RateLimiter
wait cancelled now woken r =
    if r.min_interval == 0
    then (none, r)
    else if ltb 0 (pause r.min_interval r.last now)
    then elim cancelled [
      | some message ↦ (some message, r)
      | none ↦ (none, record r { last = some woken })
    ]
    else (none, record r { last = some woken })

-- A call that is not cancelled, of a limiter with an interval, returns that interval at least after the
-- last one that did, if the timer does not fire early; the limiter keeps that time.
pub wait-last :
    (last now woken : ℕ) (r : RateLimiter)
    → r.last ≡ some last
    → 0 < r.min_interval
    → last ≤ now
    → now + pause r.min_interval r.last now ≤ woken
    → (last + r.min_interval ≤ woken) × ((wait none now woken r).1.last ≡ some woken)
unfolding wait
wait-last last now woken r known spaced before slept =
    let slept_since = simp known at slept in
    (
      omega (arith, before, slept_since),
      elim (Bool-cases (r.min_interval == 0)) [
        | inl free ↦ absurd (ground (arith, spaced, free))
        | inr limited ↦ elim (Bool-cases (ltb 0 (pause r.min_interval r.last now))) [
          | inl sleeps ↦ simp (limited, sleeps) refl
          | inr passes ↦ simp (limited, passes) refl
        ]
      ],
    )

-- The answer to the request: its status and, for status 200, the items or the error of the XML.
pub record Feed : Type 0 where
  pub status : ℕ
  pub items : Try (List RssItem)

-- `GoogleNewsRSS`
pub record GoogleNewsRss : Type 0 where
  pub base_url : String
  pub limiter : RateLimiter

-- `NewGoogleNewsRSS`; a client that is not given is the default one.
unfoldable pub new_google_news_rss : String → ℕ → GoogleNewsRss
unfolding new_rate_limiter
new_google_news_rss base_url min_interval = record {
  base_url = if is_empty base_url then "https://news.google.com/rss/search" else base_url;
  limiter = new_rate_limiter min_interval;
}

-- The address of a search.
abbrev pub endpoint : (String → String) → String → String → String
endpoint escape base_url ticker =
    concat base_url
      (concat "?q=" (concat (escape (concat ticker " stock news")) "&hl=en-IN&gl=IN&ceid=IN:en"))

abbrev pub read_feed :
    (String → String) → List (String → Option ℕ) → String → Try Feed → Try (List Article)
read_feed clean layouts ticker (err message) = err (concat "google news: " message)
read_feed clean layouts ticker (ok feed) =
    if feed.status == 200
    then elim feed.items [
      | err message ↦ err (concat "google news: parse rss: " message)
      | ok items ↦ ok (parse_rss clean layouts ticker items)
    ]
    else err (concat "google news: http " (decimal_text feed.status))

abbrev pub after_wait :
    (String → String)
    → List (String → Option ℕ)
    → String
    → Try Feed
    → Option String
    → Try (List Article)
after_wait clean layouts ticker answer (some message) =
    err (concat "google news: rate limit wait: " message)
after_wait clean layouts ticker answer none = read_feed clean layouts ticker answer

-- `Fetch`, with what the server answers to an address
unfoldable pub fetch :
    (String → String)
    → (String → String)
    → List (String → Option ℕ)
    → (String → Try Feed)
    → Option String
    → ℕ
    → ℕ
    → String
    → GoogleNewsRss
    → Try (List Article) × GoogleNewsRss
unfolding wait parse_rss decimal_text
fetch escape clean layouts server cancelled now woken ticker g =
    let waited = wait cancelled now woken g.limiter in
    (
      after_wait clean layouts ticker (server (endpoint escape g.base_url ticker)) waited.0,
      record g { limiter = waited.1 },
    )
