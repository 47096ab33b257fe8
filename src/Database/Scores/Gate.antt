-- ===== src/Database/Scores/Gate.antt =====
-- src/pkg/database/sentiment.go and src/analysts/riskmanager/sentiment.go: the gate over the store.
use navier_stocks.Base.{
  ℕ, suc, ◌≤◌, ◌<◌, ◌≡◌, refl, ap, true, inl, inr, Option, none, some, List, [], ◌∷◌, String, arith,
  if◌then◌else◌, Bool-cases, All, All-mono,
}
use navier_stocks.Base.Try.{Try, ok, err}
use navier_stocks.Base.Text.{str_eq, str_eq_refl}
use navier_stocks.Float.{Float64}
use navier_stocks.Models.{SentimentScore}
use navier_stocks.Risk.{Refusal, Fetched, fetch_failed, absent, found}
use navier_stocks.Risk.Gates.{judge_score, sentiment_gate}
use navier_stocks.Database.Scores.{
  SentimentStore, insert, is_newer, newer_of, latest_of, latest_score,
}

module _ {F : Type 0} where
  -- What the gate gets of `LatestScore`.
  abbrev pub as_fetched : Try (Option (SentimentScore F)) → Fetched (SentimentScore F)
  as_fetched (err message) = fetch_failed message
  as_fetched (ok none) = absent
  as_fetched (ok (some s)) = found s

  -- A row from a time or before, with an id that was given out before.
  abbrev pub IsPast : ℕ → ℕ → SentimentScore F → Type 0
  IsPast now next_id s = (s.recorded_at ≤ now) × (s.id < next_id)

  -- The rows of a store are past.
  abbrev pub IsStore : ℕ → SentimentStore F → Type 0
  IsStore now store = All (IsPast now store.next_id) store.rows

  abbrev IsPastIf : ℕ → ℕ → Option (SentimentScore F) → Type 0
  IsPastIf now next_id none = Unit {0}
  IsPastIf now next_id (some s) = IsPast now next_id s

  newer_of-IsPast :
      (now next_id : ℕ) (s : SentimentScore F) (rest : Option (SentimentScore F))
      → IsPast now next_id s
      → IsPastIf now next_id rest
      → IsPast now next_id (newer_of s rest)
  newer_of-IsPast now next_id s none past rest = past
  newer_of-IsPast now next_id s (some r) past rest = elim (Bool-cases (is_newer s r)) [
    | inl newer ↦ simp newer past
    | inr older ↦ simp older rest
  ]

  latest_of-IsPast :
      (now next_id : ℕ) (ticker : String) (rows : List (SentimentScore F))
      → All (IsPast now next_id) rows
      → IsPastIf now next_id (latest_of ticker rows)
  unfolding latest_of
  latest_of-IsPast now next_id ticker [] past = tt
  latest_of-IsPast now next_id ticker (s ∷ rows) past = elim (Bool-cases (str_eq s.ticker ticker)) [
    | inl own ↦ simp own (
        newer_of-IsPast now next_id s (latest_of ticker rows) past.0
          (latest_of-IsPast now next_id ticker rows past.1))
    | inr other ↦ simp other (latest_of-IsPast now next_id ticker rows past.1)
  ]

  newer_of-new :
      (now next_id : ℕ) (s : SentimentScore F) (rest : Option (SentimentScore F))
      → s.recorded_at ≡ now
      → s.id ≡ next_id
      → IsPastIf now next_id rest
      → newer_of s rest ≡ s
  newer_of-new now next_id s none at_now new past = refl
  newer_of-new now next_id s (some r) at_now new past =
      let newer : is_newer s r ≡ true = ground (arith, at_now, new, past) in simp newer refl

module _ {F : Type 0} ⦃fl : Float64 F⦄ where
  -- `Insert` of a score that the database takes, in a store whose rows are past, gives it the next
  -- id and keeps the rows past; and then the gate of the risk manager judges its ticker by the
  -- confidence of that score alone, whatever scores of the ticker the store holds.
  pub sentiment_gate-insert :
      (now : ℕ) (score : SentimentScore F) (store : SentimentStore F) (floor : F)
      → IsStore now store
      → (store' : SentimentStore F) × (insert none now score store ≡ ok (store.next_id, store'))
        × IsStore now store'
        × (sentiment_gate
              (some (λ ticker. as_fetched (latest_score none ticker store')))
              score.ticker
              floor
            ≡ (if fl.lt score.confidence floor
                then some Refusal.sentiment_low_confidence
                else none))
  unfolding sentiment_gate latest_score latest_of insert
  sentiment_gate-insert now score store floor past =
      let row = record score { id = store.next_id; recorded_at = now } in
      let newest =
        newer_of-new now store.next_id row (latest_of score.ticker store.rows) refl refl
          (latest_of-IsPast now store.next_id score.ticker store.rows past) in
      (
        record { rows = row ∷ store.rows; next_id = suc store.next_id },
        refl,
        (
          (omega arith, omega arith),
          All-mono (IsPast now store.next_id) (IsPast now (suc store.next_id)) store.rows
              (λ s p. (p.0, omega (arith, p.1))) past,
        ),
        simp (str_eq_refl score.ticker) (ap (λ s. judge_score (found s) floor) newest),
      )
