-- ===== src/Database/Scores/Latest.antt =====
-- src/pkg/database/sentiment.go: the latest score after a score is stored.
use navier_stocks.Base.{
  ℕ, ◌≤◌, ◌≡◌, inl, inr, Option, none, some, List, ◌∷◌, String, arith, Bool-cases,
}
use navier_stocks.Base.Text.{str_eq, str_eq_refl}
use navier_stocks.Models.{SentimentScore}
use navier_stocks.Database.Scores.{is_newer, newer_of, latest_of}

module _ {F : Type 0} where
  -- There is a score from a time or later.
  abbrev pub IsSince : ℕ → Option (SentimentScore F) → Type 0
  IsSince t none = ⊥
  IsSince t (some s) = t ≤ s.recorded_at

  newer_of-left :
      (s : SentimentScore F) (rest : Option (SentimentScore F))
      → s.recorded_at ≤ (newer_of s rest).recorded_at
  newer_of-left s none = omega arith
  newer_of-left s (some r) = elim (Bool-cases (is_newer s r)) [
    | inl newer ↦ ground (arith, newer)
    | inr older ↦ ground (arith, older)
  ]

  newer_of-right :
      (t : ℕ) (s : SentimentScore F) (rest : Option (SentimentScore F))
      → IsSince t rest
      → t ≤ (newer_of s rest).recorded_at
  newer_of-right t s none since = elim since [ ]
  newer_of-right t s (some r) since = ground (arith, since)

  pub latest_of-stored :
      (ticker : String) (s : SentimentScore F) (rows : List (SentimentScore F))
      → s.ticker ≡ ticker
      → IsSince s.recorded_at (latest_of ticker (s ∷ rows))
  unfolding latest_of
  latest_of-stored ticker s rows own =
      simp (own, str_eq_refl ticker) (newer_of-left s (latest_of ticker rows))

  -- A row more never takes a recent score away.
  pub latest_of-kept :
      (t : ℕ) (ticker : String) (s : SentimentScore F) (rows : List (SentimentScore F))
      → IsSince t (latest_of ticker rows)
      → IsSince t (latest_of ticker (s ∷ rows))
  unfolding latest_of
  latest_of-kept t ticker s rows since = elim (Bool-cases (str_eq s.ticker ticker)) [
    | inl own ↦ simp own (newer_of-right t s (latest_of ticker rows) since)
    | inr other ↦ simp other since
  ]
