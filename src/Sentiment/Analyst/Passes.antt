-- ===== src/Sentiment/Analyst/Passes.antt =====
-- src/analysts/sentiment/agent.go: one pass over a ticker after another.
use mathlib.Core.List.{Memᴰ}
use navier_stocks.Base.{
  ℕ, suc, ◌+◌, ◌<◌, ◌≡◌, refl, sym, ◌∙◌, inl, inr, true, false, Option, none, some, List, [], ◌∷◌,
  String, arith, ltb, Bool-cases,
}
use navier_stocks.Base.Try.{Try, ok, err}
use navier_stocks.Models.{Article, SentimentScore}
use navier_stocks.Database.Scores.{insert, latest_of, latest_score}
use navier_stocks.Database.Scores.Latest.{IsSince, latest_of-stored, latest_of-kept}
use navier_stocks.Sentiment.Scraper.{Scraper, fetch_fresh}
use navier_stocks.Sentiment.Analyst.{
  Analyst, Pass, is_fresh, has_fresh_score, publish_update, announce, keep_score, score_articles,
  take_fresh, scrape, process_ticker,
}

module _ {F : Type 0} where
  abbrev pub latest : String → Analyst F → Option (SentimentScore F)
  latest ticker g = latest_of ticker g.store.rows

  -- A recent score stays, and so does the window.
  record Grows (ticker : String) (g g' : Analyst F) : Type 0 where
    keeps : (t : ℕ) → IsSince t (latest ticker g) → IsSince t (latest ticker g')
    window : g'.staleness ≡ g.staleness

  Grows-refl : (ticker : String) (g : Analyst F) → Grows ticker g g
  Grows-refl ticker g = record { keeps = λ t since. since; window = refl }

  publish_update-Grows :
      (ticker : String) (score : SentimentScore F) (g : Analyst F)
      → Grows ticker g (publish_update score g)
  unfolding publish_update
  publish_update-Grows ticker score g = elim (Bool-cases g.wired) [
    | inl wired ↦ simp wired (record { keeps = λ t since. since; window = refl })
    | inr off ↦ simp off (Grows-refl ticker g)
  ]

  announce-Grows :
      (ticker : String) (message : Option String) (now : ℕ) (score : SentimentScore F)
      (g : Analyst F)
      → Grows ticker g (announce score (insert message now score g.store) g)
  unfolding insert
  announce-Grows ticker (some message) now score g = Grows-refl ticker g
  announce-Grows ticker none now score g =
      let row = record score { id = g.store.next_id; recorded_at = now } in
      let grown =
        publish_update-Grows ticker (record score { id = g.store.next_id })
          (record g {
            store = record { rows = row ∷ g.store.rows; next_id = suc g.store.next_id };
          }) in
      record {
        keeps = λ t since. grown.keeps t (latest_of-kept t ticker row g.store.rows since);
        window = grown.window;
      }

  keep_score-Grows :
      (ticker : String) (pass : Pass F) (a : Article) (answer : Try (SentimentScore F))
      (g : Analyst F)
      → Grows ticker g (keep_score pass ticker a answer g)
  keep_score-Grows ticker pass a (err message) g = Grows-refl ticker g
  keep_score-Grows ticker pass a (ok scored) g =
      announce-Grows ticker (pass.insert_error a) (pass.stored_at a)
        (record scored { ticker = ticker; recorded_at = pass.scored_at a }) g

  score_articles-Grows :
      (ticker : String) (pass : Pass F) (articles : List Article) (g : Analyst F)
      → Grows ticker g (score_articles pass ticker articles g)
  unfolding score_articles
  score_articles-Grows ticker pass [] g = Grows-refl ticker g
  score_articles-Grows ticker pass (a ∷ articles) g =
      let one = keep_score-Grows ticker pass a (pass.score a) g in
      let rest =
        score_articles-Grows ticker pass articles (keep_score pass ticker a (pass.score a) g) in
      record {
        keeps = λ t since. rest.keeps t (one.keeps t since);
        window = rest.window ∙ one.window;
      }

  keep_score-latest :
      (ticker : String) (pass : Pass F) (a : Article) (scored : SentimentScore F) (g : Analyst F)
      → pass.insert_error a ≡ none
      → IsSince (pass.stored_at a) (latest ticker (keep_score pass ticker a (ok scored) g))
  unfolding insert
  keep_score-latest ticker pass a scored g stored =
      let score = record scored { ticker = ticker; recorded_at = pass.scored_at a } in
      let row = record score { id = g.store.next_id; recorded_at = pass.stored_at a } in
      rw stored (
        (publish_update-Grows ticker (record score { id = g.store.next_id })
            (record g {
              store = record { rows = row ∷ g.store.rows; next_id = suc g.store.next_id };
            })).keeps
          (pass.stored_at a) (latest_of-stored ticker row g.store.rows refl))

  score_articles-latest :
      (ticker : String) (pass : Pass F) (a : Article) (scored : SentimentScore F)
      (articles : List Article) (g : Analyst F)
      → Memᴰ a articles
      → pass.score a ≡ ok scored
      → pass.insert_error a ≡ none
      → IsSince (pass.stored_at a) (latest ticker (score_articles pass ticker articles g))
  unfolding score_articles
  score_articles-latest ticker pass a scored [] g mem answer stored = elim mem [ ]
  score_articles-latest ticker pass a scored (b ∷ articles) g (Memᴰ.head same) answer stored =
      (score_articles-Grows ticker pass articles (keep_score pass ticker b (pass.score b) g)).keeps
        (pass.stored_at a) (rw (sym same, answer) (keep_score-latest ticker pass a scored g stored))
  score_articles-latest ticker pass a scored (b ∷ articles) g (Memᴰ.tail mem) answer stored =
      score_articles-latest ticker pass a scored articles
        (keep_score pass ticker b (pass.score b) g) mem answer stored

  scrape_recent :
      (hash : String → String) (pass : Pass F) (ticker : String) (t : ℕ)
      (found : Option (SentimentScore F)) (g : Analyst F)
      → IsSince t found
      → pass.now < t + g.staleness
      → (scrape hash pass ticker (is_fresh g.staleness pass.now (ok found)) g).0 ≡ g
  scrape_recent hash pass ticker t none g since early = elim since [ ]
  scrape_recent hash pass ticker t (some r) g since early =
      let recent : ltb pass.now (r.recorded_at + g.staleness) ≡ true =
        ground (arith, since, early) in
      simp recent refl

  -- With a recent score, or an error of the database, a pass leaves the analyst as it is.
  skip_pass :
      (hash : String → String) (pass : Pass F) (ticker : String) (t : ℕ) (error : Option String)
      (g : Analyst F)
      → IsSince t (latest ticker g)
      → pass.now < t + g.staleness
      → (scrape hash pass ticker
          (is_fresh g.staleness pass.now (latest_score error ticker g.store))
          g).0
        ≡ g
  unfolding latest_score
  skip_pass hash pass ticker t (some message) g since early = refl
  skip_pass hash pass ticker t none g since early =
      scrape_recent hash pass ticker t (latest ticker g) g since early

  take_fresh-latest :
      (ticker : String) (pass : Pass F) (a : Article) (scored : SentimentScore F)
      (articles : List Article) (fetched : Try (List Article) × Scraper) (g : Analyst F)
      → fetched.0 ≡ ok articles
      → Memᴰ a articles
      → pass.score a ≡ ok scored
      → pass.insert_error a ≡ none
      → IsSince (pass.stored_at a) (latest ticker (take_fresh pass ticker fetched g).0)
        × ((take_fresh pass ticker fetched g).0.staleness ≡ g.staleness)
  take_fresh-latest ticker pass a scored articles (found, scraper) g is_ok mem answer stored =
      rw is_ok (
        score_articles-latest ticker pass a scored articles (record g { scraper = scraper }) mem
            answer stored,
        (score_articles-Grows ticker pass articles (record g { scraper = scraper })).window,
      )

  -- Once a pass that finds no fresh score has stored the score of one of the ticker's fresh articles, a
  -- pass within the staleness window of that row leaves the analyst as it is, whatever the source, the
  -- model and the database would answer: nothing is scraped, scored, stored or published.
  pub process_ticker-quiet :
      (hash : String → String) (pass later : Pass F) (ticker : String) (g : Analyst F)
      (articles : List Article) (a : Article) (scored : SentimentScore F)
      → has_fresh_score pass ticker g ≡ ok false
      → (fetch_fresh hash pass.now pass.fetched g.scraper).0 ≡ ok articles
      → Memᴰ a articles
      → pass.score a ≡ ok scored
      → pass.insert_error a ≡ none
      → later.now < pass.stored_at a + g.staleness
      → (process_ticker hash later ticker (process_ticker hash pass ticker g).0).0
        ≡ (process_ticker hash pass ticker g).0
  unfolding process_ticker has_fresh_score
  process_ticker-quiet hash pass later ticker g articles a scored stale found mem answer stored
        early =
      let (since, window) =
        take_fresh-latest ticker pass a scored articles
          (fetch_fresh hash pass.now pass.fetched g.scraper) g found mem answer stored in
      simp stale (
        skip_pass hash later ticker (pass.stored_at a) later.query_error
          (take_fresh pass ticker (fetch_fresh hash pass.now pass.fetched g.scraper) g).0 since
          (rw window early))
