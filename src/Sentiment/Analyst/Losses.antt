-- ===== src/Sentiment/Analyst/Losses.antt =====
-- src/analysts/sentiment/agent.go: the articles that a pass loses.
use navier_stocks.Base.{
  ℕ, ◌+◌, ◌<◌, ◌≤◌, ◌≡◌, refl, ap, ◌∙◌, Bool, true, false, List, [], ◌∷◌, String,
}
use navier_stocks.Base.Try.{Try, ok, err}
use navier_stocks.Models.{Article}
use navier_stocks.Sentiment.Scraper.{Scraper, new_scraper, fetch_fresh}
use navier_stocks.Sentiment.Scraper.Again.{fetch_fresh-again}
use navier_stocks.Sentiment.Analyst.{
  Analyst, Pass, has_fresh_score, score_articles, take_fresh, scrape, process_ticker,
}

module _ {F : Type 0} where
  score_articles_barren :
      (pass : Pass F) (ticker : String) (failure : Article → String) (articles : List Article)
      (g : Analyst F)
      → ((a : Article) → pass.score a ≡ err (failure a))
      → score_articles pass ticker articles g ≡ g
  unfolding score_articles
  score_articles_barren pass ticker failure [] g barren = refl
  score_articles_barren pass ticker failure (a ∷ articles) g barren =
      rw (barren a) (score_articles_barren pass ticker failure articles g barren)

  take_fresh_barren :
      (pass : Pass F) (ticker : String) (failure : Article → String)
      (fetched : Try (List Article) × Scraper) (g : Analyst F)
      → ((a : Article) → pass.score a ≡ err (failure a))
      → (take_fresh pass ticker fetched g).0 ≡ record g { scraper = fetched.1 }
  take_fresh_barren pass ticker failure (err message, scraper) g barren = refl
  take_fresh_barren pass ticker failure (ok articles, scraper) g barren =
      score_articles_barren pass ticker failure articles (record g { scraper = scraper }) barren

  scrape_seen :
      (hash : String → String) (pass : Pass F) (ticker : String) (test : Try Bool) (g : Analyst F)
      → (fetch_fresh hash pass.now pass.fetched g.scraper).0 ≡ ok []
      → (scrape hash pass ticker test g).0.store ≡ g.store
  unfolding score_articles
  scrape_seen hash pass ticker (err message) g nothing = refl
  scrape_seen hash pass ticker (ok true) g nothing = refl
  scrape_seen hash pass ticker (ok false) g nothing =
      ap
        (λ (answer : Try (List Article)).
          (take_fresh pass ticker (answer, (fetch_fresh hash pass.now pass.fetched g.scraper).1)
            g).0.store)
        nothing

  -- When a ticker has no fresh score, and the model fails on every article that a new scraper
  -- fetches for it, a later pass within the scraper's time to live that fetches the same articles
  -- stores no score, whatever the model answers then.
  pub process_ticker_lost :
      (hash : String → String) (pass later : Pass F) (ticker : String) (g : Analyst F) (ttl : ℕ)
      (articles : List Article) (failure : Article → String)
      → g.scraper ≡ new_scraper ttl
      → has_fresh_score pass ticker g ≡ ok false
      → pass.fetched ≡ ok articles
      → later.fetched ≡ ok articles
      → ((a : Article) → pass.score a ≡ err (failure a))
      → pass.now ≤ later.now
      → later.now < pass.now + ttl
      → (process_ticker hash later ticker (process_ticker hash pass ticker g).0).0.store ≡ g.store
  unfolding process_ticker
  process_ticker_lost hash pass later ticker g ttl articles failure new stale fetched again barren
        le within =
      let scraper = (fetch_fresh hash pass.now pass.fetched g.scraper).1 in
      let g' = record g { scraper = scraper } in
      let first : (process_ticker hash pass ticker g).0 ≡ g' = simp stale (
        take_fresh_barren pass ticker failure (fetch_fresh hash pass.now pass.fetched g.scraper) g
          barren) in
      let nothing : (fetch_fresh hash later.now later.fetched scraper).0 ≡ ok [] =
        simp (again, fetched, new)
          (fetch_fresh-again hash ttl pass.now later.now le within articles) in
      ap (λ (a : Analyst F). (process_ticker hash later ticker a).0.store) first
      ∙ scrape_seen hash later ticker (has_fresh_score later ticker g') g' nothing
