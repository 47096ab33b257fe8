-- ===== src/Sentiment/Analyst/Validity.antt =====
-- src/analysts/sentiment: the scores that the analyst stores.
use mathlib.Core.Path.{subst}
use navier_stocks.Base.{
  ℕ, suc, ◌≡◌, refl, sym, inl, inr, Bool, true, false, not, Option, none, some, List, [], ◌∷◌,
  String, arith, Bool-cases, All,
}
use navier_stocks.Base.Try.{Try, ok, err}
use navier_stocks.Base.Text.{is_empty}
use navier_stocks.Float.{Float64}
use navier_stocks.Models.{Article, SentimentScore, validate_score, require}
use navier_stocks.Database.Scores.{SentimentStore, insert}
use navier_stocks.Sentiment.Scraper.{Scraper, fetch_fresh}
use navier_stocks.Sentiment.Llm.{LlmClient, Services, score}
use navier_stocks.Sentiment.Llm.Scores.{Promises, score-Promises}
use navier_stocks.Sentiment.Analyst.{
  Analyst, Pass, has_fresh_score, publish_update, announce, keep_score, score_articles, take_fresh,
  scrape, process_ticker, cycle, run_cycle,
}

abbrev pub IsNamed : String → Type 0
IsNamed ticker = is_empty ticker ≡ false

-- A chain of checks without an error has none after its first check.
none_of-require :
    (fine : Bool) (message : String) (rest : Option String)
    → require fine message rest ≡ none
    → rest ≡ none
none_of-require true message rest h = h
none_of-require false message rest h = absurd (ground (arith, h))

module _ {F : Type 0} ⦃fl : Float64 F⦄ where
  abbrev pub IsValid : SentimentScore F → Type 0
  IsValid s = validate_score s ≡ none

  abbrev pub AllValid : Analyst F → Type 0
  AllValid g = All IsValid g.store.rows

  -- The ticker, the id and the time of a valid score may be others, if the ticker is not empty.
  renamed-IsValid :
      (s : SentimentScore F) (ticker : String) (id recorded_at : ℕ)
      → IsNamed ticker
      → IsValid s
      → IsValid (record s { id = id; ticker = ticker; recorded_at = recorded_at })
  unfolding validate_score
  renamed-IsValid s ticker id recorded_at named valid =
      simp named (none_of-require (not (is_empty s.ticker)) "ticker is required" _ valid)

  publish_update-store :
      (score : SentimentScore F) (g : Analyst F) → (publish_update score g).store ≡ g.store
  unfolding publish_update
  publish_update-store score g = elim (Bool-cases g.wired) [
    | inl wired ↦ simp wired refl
    | inr off ↦ simp off refl
  ]

  announce-AllValid :
      (message : Option String) (now : ℕ) (score : SentimentScore F) (g : Analyst F)
      → IsValid (record score { id = g.store.next_id; recorded_at = now })
      → AllValid g
      → AllValid (announce score (insert message now score g.store) g)
  unfolding insert
  announce-AllValid (some message) now s g valid all = all
  announce-AllValid none now s g valid all =
      let row = record s { id = g.store.next_id; recorded_at = now } in
      let store' : SentimentStore F = record {
        rows = row ∷ g.store.rows;
        next_id = suc g.store.next_id;
      } in
      subst (λ (store : SentimentStore F). All IsValid store.rows)
        (sym
          (publish_update-store (record s { id = g.store.next_id }) (record g { store = store' })))
        (valid, all)

  keep_score-AllValid :
      (pass : Pass F) (ticker : String) (a : Article) (answer : Try (SentimentScore F))
      (g : Analyst F)
      → IsNamed ticker
      → Promises a answer
      → AllValid g
      → AllValid (keep_score pass ticker a answer g)
  keep_score-AllValid pass ticker a (err message) g named promised all = all
  keep_score-AllValid pass ticker a (ok scored) g named promised all =
      announce-AllValid (pass.insert_error a) (pass.stored_at a)
        (record scored { ticker = ticker; recorded_at = pass.scored_at a }) g
        (renamed-IsValid scored ticker g.store.next_id (pass.stored_at a) named promised.valid) all

  -- The scores of a pass are a model's.
  abbrev pub IsPromised : Pass F → Type 0
  IsPromised pass = (a : Article) → Promises a (pass.score a)

  score_articles-AllValid :
      (pass : Pass F) (ticker : String) (articles : List Article) (g : Analyst F)
      → IsNamed ticker
      → IsPromised pass
      → AllValid g
      → AllValid (score_articles pass ticker articles g)
  unfolding score_articles
  score_articles-AllValid pass ticker [] g named promised all = all
  score_articles-AllValid pass ticker (a ∷ articles) g named promised all =
      score_articles-AllValid pass ticker articles (keep_score pass ticker a (pass.score a) g) named
        promised (keep_score-AllValid pass ticker a (pass.score a) g named (promised a) all)

  take_fresh-AllValid :
      (pass : Pass F) (ticker : String) (fetched : Try (List Article) × Scraper) (g : Analyst F)
      → IsNamed ticker
      → IsPromised pass
      → AllValid g
      → AllValid (take_fresh pass ticker fetched g).0
  take_fresh-AllValid pass ticker (err message, scraper) g named promised all = all
  take_fresh-AllValid pass ticker (ok articles, scraper) g named promised all =
      score_articles-AllValid pass ticker articles (record g { scraper = scraper }) named promised
        all

  scrape-AllValid :
      (hash : String → String) (pass : Pass F) (ticker : String) (test : Try Bool) (g : Analyst F)
      → IsNamed ticker
      → IsPromised pass
      → AllValid g
      → AllValid (scrape hash pass ticker test g).0
  scrape-AllValid hash pass ticker (err message) g named promised all = all
  scrape-AllValid hash pass ticker (ok true) g named promised all = all
  scrape-AllValid hash pass ticker (ok false) g named promised all =
      take_fresh-AllValid pass ticker (fetch_fresh hash pass.now pass.fetched g.scraper) g named
        promised all

  cycle-AllValid :
      (hash : String → String) (passes : String → Pass F) (tickers : List String) (g : Analyst F)
      → All IsNamed tickers
      → ((ticker : String) → IsPromised (passes ticker))
      → AllValid g
      → AllValid (cycle hash passes tickers g)
  unfolding cycle process_ticker
  cycle-AllValid hash passes [] g named promised all = all
  cycle-AllValid hash passes (ticker ∷ tickers) g named promised all =
      cycle-AllValid hash passes tickers (process_ticker hash (passes ticker) ticker g).0 named.1
        promised
        (scrape-AllValid hash (passes ticker) ticker (has_fresh_score (passes ticker) ticker g) g
          named.0 (promised ticker) all)

  -- If the rows of the store pass `Validate`, and no ticker of the universe is empty, they still do after a
  -- cycle whose scores come from a client of a language model, whatever the provider, the source and the
  -- database answer.
  pub run_cycle-AllValid :
      (hash : String → String) (system : String) (format : ℕ → String) (net : Services F)
      (client : LlmClient) (passes : String → Pass F) (g : Analyst F)
      → ((ticker : String) (a : Article)
          → (passes ticker).score a ≡ score system format net client a)
      → All IsNamed g.universe
      → AllValid g
      → AllValid (run_cycle hash passes g)
  unfolding run_cycle
  run_cycle-AllValid hash system format net client passes g by_client named all =
      cycle-AllValid hash passes g.universe g named
        (λ ticker a.
          subst (λ (answer : Try (SentimentScore F)). Promises a answer) (sym (by_client ticker a))
            (score-Promises system format net client a))
        all
