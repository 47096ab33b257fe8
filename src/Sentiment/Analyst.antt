-- ===== src/Sentiment/Analyst.antt =====
-- src/analysts/sentiment/agent.go: the cycle of the analyst. The clocks, the errors of the database,
-- what the source fetches and the scores of the model are the parts of a `Pass`; the scheduler, logging
-- and shutdown are not modelled, and the JSON of a published score is the score.
pub mod Losses
pub mod Passes
pub mod Validity
use navier_stocks.Base.{
  ℕ, ◌+◌, Bool, true, false, Option, none, some, List, [], ◌∷◌, String, ltb, if◌then◌else◌, map,
}
use navier_stocks.Base.Try.{Try, ok, err}
use navier_stocks.Base.Text.{is_empty}
use navier_stocks.Base.Trim.{trim, split}
use navier_stocks.Models.{Article, SentimentScore}
use navier_stocks.Database.Scores.{SentimentStore, insert, latest_score}
use navier_stocks.Sentiment.Scraper.{Scraper, fetch_fresh}

-- `Analyst`, with the scores it handed to the sentiment stream, newest first. The staleness is not
-- negative.
pub record Analyst (F : Type 0) : Type 0 where
  pub wired : Bool
  pub scraper : Scraper
  pub store : SentimentStore F
  pub universe : List String
  pub staleness : ℕ
  pub published : List (SentimentScore F)

-- `newAnalyst`
unfoldable pub new_analyst :
    {F : Type 0} → Bool → Scraper → SentimentStore F → List String → ℕ → Analyst F
new_analyst wired scraper store universe staleness = record {
  wired = wired;
  scraper = scraper;
  store = store;
  universe = universe;
  staleness = staleness;
  published = [];
}

-- What `processTicker` meets.
pub record Pass (F : Type 0) : Type 0 where
  pub now : ℕ
  pub query_error : Option String
  pub fetched : Try (List Article)
  pub score : Article → Try (SentimentScore F)
  pub scored_at : Article → ℕ
  pub insert_error : Article → Option String
  pub stored_at : Article → ℕ

module _ {F : Type 0} where
  abbrev pub is_fresh : ℕ → ℕ → Try (Option (SentimentScore F)) → Try Bool
  is_fresh staleness now (err message) = err message
  is_fresh staleness now (ok none) = ok false
  is_fresh staleness now (ok (some latest)) = ok (ltb now (latest.recorded_at + staleness))

  -- `hasFreshScore`
  unfoldable pub has_fresh_score : Pass F → String → Analyst F → Try Bool
  unfolding latest_score
  has_fresh_score pass ticker g =
      is_fresh g.staleness pass.now (latest_score pass.query_error ticker g.store)

  -- `publishUpdate`
  unfoldable pub publish_update : SentimentScore F → Analyst F → Analyst F
  publish_update score g = if g.wired then record g { published = score ∷ g.published } else g

  abbrev pub announce : SentimentScore F → Try (ℕ × SentimentStore F) → Analyst F → Analyst F
  announce score (err message) g = g
  announce score (ok (id, store)) g =
      publish_update (record score { id = id }) (record g { store = store })

  abbrev pub keep_score : Pass F → String → Article → Try (SentimentScore F) → Analyst F → Analyst F
  keep_score pass ticker a (err message) g = g
  keep_score pass ticker a (ok scored) g =
      let score = record scored { ticker = ticker; recorded_at = pass.scored_at a } in
      announce score (insert (pass.insert_error a) (pass.stored_at a) score g.store) g

  -- The loop of `processTicker` over the fresh articles.
  unfoldable pub score_articles : Pass F → String → List Article → Analyst F → Analyst F
  unfolding publish_update insert
  score_articles pass ticker [] g = g
  score_articles pass ticker (a ∷ articles) g =
      score_articles pass ticker articles (keep_score pass ticker a (pass.score a) g)

  abbrev pub take_fresh :
      Pass F → String → Try (List Article) × Scraper → Analyst F → Analyst F × Option String
  take_fresh pass ticker (err message, scraper) g = (record g { scraper = scraper }, some message)
  take_fresh pass ticker (ok articles, scraper) g =
      (score_articles pass ticker articles (record g { scraper = scraper }), none)

  abbrev pub scrape :
      (String → String) → Pass F → String → Try Bool → Analyst F → Analyst F × Option String
  scrape hash pass ticker (err message) g = (g, some message)
  scrape hash pass ticker (ok true) g = (g, none)
  scrape hash pass ticker (ok false) g =
      take_fresh pass ticker (fetch_fresh hash pass.now pass.fetched g.scraper) g

  -- `processTicker`: the analyst and the error.
  unfoldable pub process_ticker :
      (String → String) → Pass F → String → Analyst F → Analyst F × Option String
  unfolding has_fresh_score score_articles fetch_fresh
  process_ticker hash pass ticker g = scrape hash pass ticker (has_fresh_score pass ticker g) g

  -- The loop of `runCycle`, with a pass for each ticker.
  unfoldable pub cycle : (String → String) → (String → Pass F) → List String → Analyst F → Analyst F
  unfolding process_ticker
  cycle hash passes [] g = g
  cycle hash passes (ticker ∷ tickers) g =
      cycle hash passes tickers (process_ticker hash (passes ticker) ticker g).0

  -- `runCycle`
  unfoldable pub run_cycle : (String → String) → (String → Pass F) → Analyst F → Analyst F
  unfolding cycle
  run_cycle hash passes g = cycle hash passes g.universe g

-- `parseDurationEnv`, of the variable's value
unfoldable pub parse_duration_env : {A : Type 0} → (String → Option A) → String → A → A
parse_duration_env parse_duration raw fallback =
    if is_empty raw then fallback else elim (parse_duration raw) [ some d ↦ d | none ↦ fallback ]

abbrev pub non_empty : List String → List String
non_empty [] = []
non_empty (part ∷ parts) = let rest = non_empty parts in if is_empty part then rest else part ∷ rest

abbrev pub or_else : List String → List String → List String
or_else [] fallback = fallback
or_else (s ∷ symbols) fallback = s ∷ symbols

-- `resolveUniverse`, of SENTIMENT_UNIVERSE and the scout's symbols
unfoldable pub resolve_symbols : String → List String → List String
unfolding trim split
resolve_symbols raw scouts =
    if is_empty raw then scouts else or_else (non_empty (map trim (split b',' raw))) scouts
