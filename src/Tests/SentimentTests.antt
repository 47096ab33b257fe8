-- ===== src/Tests/SentimentTests.antt =====
-- The sentiment analyst at concrete inputs.
use mathlib.Core.List.{Memᴰ}
use navier_stocks.Base.{
  ◌+◌, ◌<◌, ◌≡◌, refl, true, false, none, some, List, [], ◌∷◌, String, arith, if◌then◌else◌,
}
use navier_stocks.Base.Int.{pos}
use navier_stocks.Base.Try.{ok, err}
use navier_stocks.Base.Trim.{trim}
use navier_stocks.Base.Dict.{lookup}
use navier_stocks.Float.Fixed.{Fixed, fixed_float}
use navier_stocks.Models.{Article, SentimentBias, SentimentScore}
use navier_stocks.Database.Scores.{SentimentStore, new_sentiment_store, insert, latest_score}
use navier_stocks.Database.Scores.Gate.{as_fetched, IsStore, sentiment_gate-insert}
use navier_stocks.Risk.{Refusal}
use navier_stocks.Risk.Gates.{sentiment_gate}
use navier_stocks.Sentiment.Fences.{strip_code_fences}
use navier_stocks.Sentiment.Fences.RoundTrip.{fenced, strip_code_fences-fenced}
use navier_stocks.Sentiment.Llm.{LlmClient, ollama, Services, score}
use navier_stocks.Sentiment.Scraper.{new_scraper, fetch_fresh}
use navier_stocks.Sentiment.Scraper.Dedup.{Fetch, fetch_all, answers, fetch_all-answers}
use navier_stocks.Sentiment.Analyst.{
  Analyst, Pass, new_analyst, has_fresh_score, process_ticker, run_cycle,
}
use navier_stocks.Sentiment.Analyst.Validity.{AllValid, run_cycle-AllValid}
use navier_stocks.Sentiment.Analyst.Passes.{process_ticker-quiet}
use navier_stocks.Sentiment.Analyst.Losses.{process_ticker_lost}
use navier_stocks.Tests.Fixtures.{amount}

strip_code_fences-fenced_example : strip_code_fences (fenced "json" " {} ") ≡ trim " {} "
strip_code_fences-fenced_example =
    strip_code_fences-fenced "json" " {} " (refl, (refl, (refl, (refl, tt))))

abbrev plain : String → String
plain text = text

abbrev news : Article
news = record {
  ticker = "TCS";
  title = "TCS wins";
  url = "https://news/1";
  source = "wire";
  description = "";
  published_at = none;
}

-- The same article twice within 100, and once after that.
abbrev three_fetches : List Fetch
three_fetches =
    (10, ok (news ∷ news ∷ []))
    ∷ (60, err "timeout")
    ∷ (109, ok (news ∷ []))
    ∷ (110, ok (news ∷ []))
    ∷ []

fetch_all-answers_example :
    fetch_all plain three_fetches (new_scraper 100) ≡ answers plain 100 three_fetches []
fetch_all-answers_example =
    fetch_all-answers plain 100 0 three_fetches
      (omega arith, (omega arith, (omega arith, (omega arith, tt))))

abbrev good_news : SentimentScore Fixed
good_news = record {
  id = 0;
  ticker = "TCS";
  bias = SentimentBias.bullish;
  confidence = amount 9_000;
  summary = "";
  source = "wire";
  source_url = "https://news/1";
  raw_response = "{}";
  recorded_at = 0;
}

abbrev first_pass : Pass Fixed
first_pass = record {
  now = 10;
  query_error = none;
  fetched = ok (news ∷ []);
  score = λ a. ok good_news;
  scored_at = λ a. 11;
  insert_error = λ a. none;
  stored_at = λ a. 12;
}

abbrev outage : Pass Fixed
outage = record first_pass { score = λ a. err "llm: provider returned HTTP 503" }

abbrev later_pass : Pass Fixed
later_pass = record first_pass { now = 40 }

abbrev analyst : Analyst Fixed
analyst = new_analyst true (new_scraper 100) new_sentiment_store ("TCS" ∷ []) 50

analyst_stale : has_fresh_score first_pass "TCS" analyst ≡ ok false
unfolding new_analyst new_sentiment_store has_fresh_score
analyst_stale = refl

outage_stale : has_fresh_score outage "TCS" analyst ≡ ok false
unfolding new_analyst new_sentiment_store has_fresh_score
outage_stale = refl

first_fetch : (fetch_fresh plain 10 (ok (news ∷ [])) analyst.scraper).0 ≡ ok (news ∷ [])
unfolding new_analyst new_scraper fetch_fresh lookup
first_fetch = refl

analyst_scraper : analyst.scraper ≡ new_scraper 100
unfolding new_analyst
analyst_scraper = refl

analyst_early : 40 < 12 + analyst.staleness
unfolding new_analyst
analyst_early = omega arith

process_ticker-quiet_example :
    (process_ticker plain later_pass "TCS" (process_ticker plain first_pass "TCS" analyst).0).0
    ≡ (process_ticker plain first_pass "TCS" analyst).0
process_ticker-quiet_example =
    process_ticker-quiet plain first_pass later_pass "TCS" analyst (news ∷ []) news good_news
      analyst_stale first_fetch (Memᴰ.head refl) refl refl analyst_early

process_ticker_lost_example :
    (process_ticker plain later_pass "TCS" (process_ticker plain outage "TCS" analyst).0).0.store
    ≡ analyst.store
process_ticker_lost_example =
    process_ticker_lost plain outage later_pass "TCS" analyst 100 (news ∷ [])
      (λ a. "llm: provider returned HTTP 503") analyst_scraper outage_stale refl refl (λ a. refl)
      (omega arith) (omega arith)

abbrev local : LlmClient
local = ollama "http://localhost:11434" "llama3" (pos 60_000_000_000)

abbrev services : Services Fixed
services = record {
  send = λ post. ok (record { status = 200; body = some "{}" });
  choices = λ body. ok [];
  message = λ body. ok "```json\n{}\n```";
  raw_score = λ text. ok (record { bias = " BULLISH "; confidence = amount 9_000; summary = "" });
  upper = plain;
}

-- The store after one score of the ticker.
abbrev one_score : SentimentStore Fixed
one_score = record { rows = record good_news { id = 1; recorded_at = 12 } ∷ []; next_id = 2 }

abbrev doubtful : SentimentScore Fixed
doubtful = record good_news { confidence = amount 3_000 }

sentiment_gate-insert_example :
    (store' : SentimentStore Fixed) × (insert none 12 doubtful one_score ≡ ok (2, store'))
    × IsStore 12 store'
    × (sentiment_gate
          (some (λ ticker. as_fetched (latest_score none ticker store')))
          "TCS"
          (amount 6_000)
        ≡ (if fixed_float.lt doubtful.confidence (amount 6_000)
            then some Refusal.sentiment_low_confidence
            else none))
sentiment_gate-insert_example =
    sentiment_gate-insert 12 doubtful one_score (amount 6_000) ((omega arith, omega arith), tt)

-- A cycle over one ticker whose scores are the client's.
abbrev client_pass : String → Pass Fixed
client_pass ticker = record first_pass { score = score "system" (λ t. "") services local }

run_cycle-AllValid_example : AllValid (run_cycle plain client_pass analyst)
unfolding new_analyst new_sentiment_store
run_cycle-AllValid_example =
    run_cycle-AllValid plain "system" (λ t. "") services local client_pass analyst
      (λ ticker a. refl) (refl, tt) tt
