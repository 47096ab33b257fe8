-- ===== src/Database/Scores.antt =====
-- src/pkg/database/sentiment.go: `SentimentStore`, the rows of sentiment_scores, newest first. What
-- makes the database refuse a statement and the time of its own clock are arguments.
pub mod Gate
pub mod Latest
use navier_stocks.Base.{
  ℕ, suc, Bool, true, false, ◌&&◌, ◌||◌, Option, none, some, List, [], ◌∷◌, String, ltb, ◌==◌,
  if◌then◌else◌,
}
use navier_stocks.Base.Text.{str_eq, concat}
use navier_stocks.Base.Try.{Try, ok, err}
use navier_stocks.Models.{SentimentScore}

pub record SentimentStore (F : Type 0) : Type 0 where
  pub rows : List (SentimentScore F)
  pub next_id : ℕ

-- `NewSentimentStore`, over an empty table
unfoldable pub new_sentiment_store : {F : Type 0} → SentimentStore F
new_sentiment_store = record { rows = []; next_id = 1 }

module _ {F : Type 0} where
  -- `(*SentimentStore).Insert`: the id of the new row, whose time is the database's.
  unfoldable pub insert :
      Option String → ℕ → SentimentScore F → SentimentStore F → Try (ℕ × SentimentStore F)
  insert (some message) now score store = err (concat "insert sentiment score: " message)
  insert none now score store = ok (
    store.next_id,
    record {
      rows = record score { id = store.next_id; recorded_at = now } ∷ store.rows;
      next_id = suc store.next_id;
    },
  )

  -- The order of the query: `recorded_at`, then `id`.
  abbrev pub is_newer : SentimentScore F → SentimentScore F → Bool
  is_newer s r = ltb r.recorded_at s.recorded_at || r.recorded_at == s.recorded_at && ltb r.id s.id

  abbrev pub newer_of : SentimentScore F → Option (SentimentScore F) → SentimentScore F
  newer_of s none = s
  newer_of s (some r) = if is_newer s r then s else r

  -- The first row of a ticker in that order.
  unfoldable pub latest_of : String → List (SentimentScore F) → Option (SentimentScore F)
  latest_of ticker [] = none
  latest_of ticker (s ∷ rows) =
      let rest = latest_of ticker rows in
      if str_eq s.ticker ticker then some (newer_of s rest) else rest

  -- `(*SentimentStore).LatestScore`
  unfoldable pub latest_score :
      Option String → String → SentimentStore F → Try (Option (SentimentScore F))
  unfolding latest_of
  latest_score (some message) ticker store = err (concat "latest sentiment score: " message)
  latest_score none ticker store = ok (latest_of ticker store.rows)
