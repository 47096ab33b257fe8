-- ===== src/Sentiment/Scraper/Dedup.antt =====
-- src/analysts/sentiment/scraper.go: what a scraper returns over its life.
use navier_stocks.Base.{
  ℕ, ◌≤◌, ◌≡◌, refl, ap, ◌∙◌, inl, inr, Option, none, some, List, [], ◌∷◌, String, arith,
  if◌then◌else◌, Bool-cases,
}
use navier_stocks.Base.Try.{Try, ok, err}
use navier_stocks.Base.Text.{str_eq}
use navier_stocks.Base.Dict.{Dict, lookup, insert, lookup-insert}
use navier_stocks.Models.{Article}
use navier_stocks.Sentiment.Scraper.{
  Scraper, new_scraper, article_hash, is_recent, keep_fresh, prune, fetch_fresh,
}
use navier_stocks.Sentiment.Scraper.Prune.{prune-lookup}

-- When a hash was returned for the last time, in a log that forgets nothing.
unfoldable pub last_at : String → List (String × ℕ) → Option ℕ
last_at h [] = none
last_at h ((k, t) ∷ log) = if str_eq k h then some t else last_at h log

-- One fetch: when, and what the source answered.
abbrev pub Fetch : Type 0
Fetch = ℕ × Try (List Article)

-- The clock does not go back.
abbrev pub IsOrdered : ℕ → List Fetch → Type 0
IsOrdered now [] = Unit
IsOrdered now ((t, a) ∷ fetches) = (now ≤ t) × IsOrdered t fetches

module _ (hash : String → String) where
  -- The answers of a scraper to one fetch after the other.
  unfoldable pub fetch_all : List Fetch → Scraper → List (Try (List Article))
  unfolding fetch_fresh
  fetch_all [] s = []
  fetch_all ((now, fetched) ∷ fetches) s =
      let (answer, s') = fetch_fresh hash now fetched s in answer ∷ fetch_all fetches s'

  module _ (ttl : ℕ) where
    -- The articles that were not returned within the time to live, by the log, and the longer log.
    unfoldable pub keep_new :
        ℕ → List Article → List (String × ℕ) → List Article × List (String × ℕ)
    unfolding last_at article_hash
    keep_new now [] log = ([], log)
    keep_new now (a ∷ rest) log =
        let h = article_hash hash a in
        let old = is_recent ttl now (last_at h log) in
        let (new, log') = keep_new now rest (if old then log else (h, now) ∷ log) in
        (if old then new else a ∷ new, log')

    unfoldable pub answers : List Fetch → List (String × ℕ) → List (Try (List Article))
    unfolding keep_new
    answers [] log = []
    answers ((now, err message) ∷ fetches) log = err message ∷ answers fetches log
    answers ((now, ok articles) ∷ fetches) log =
        let (new, log') = keep_new now articles log in ok new ∷ answers fetches log'

    -- From a time on, the scraper's map and the log tell the same hashes to be within the window.
    abbrev Agrees : ℕ → Dict ℕ → List (String × ℕ) → Type 0
    Agrees now seen log =
        (k : String) (later : ℕ)
        → now ≤ later
        → is_recent ttl later (lookup k seen) ≡ is_recent ttl later (last_at k log)

    insert-Agrees :
        (now : ℕ) (h : String) (seen : Dict ℕ) (log : List (String × ℕ))
        → Agrees now seen log
        → Agrees now (insert h now seen) ((h, now) ∷ log)
    unfolding last_at
    insert-Agrees now h seen log agrees k later le = elim (Bool-cases (str_eq h k)) [
      | inl same ↦ simp (lookup-insert h k now seen, same) refl
      | inr other ↦ simp (lookup-insert h k now seen, other) (agrees k later le)
    ]

    keep_fresh-keep_new :
        (now : ℕ) (articles : List Article) (seen : Dict ℕ) (log : List (String × ℕ))
        → Agrees now seen log
        → ((keep_fresh hash ttl now articles seen).0 ≡ (keep_new now articles log).0)
          × Agrees now (keep_fresh hash ttl now articles seen).1 (keep_new now articles log).1
    unfolding keep_fresh keep_new
    keep_fresh-keep_new now [] seen log agrees = (refl, agrees)
    keep_fresh-keep_new now (a ∷ rest) seen log agrees =
        let h = article_hash hash a in
        elim (Bool-cases (is_recent ttl now (last_at h log))) [
          | inl old ↦
              simp (agrees h now (omega arith), old) (keep_fresh-keep_new now rest seen log agrees)
          | inr new ↦
              simp (agrees h now (omega arith), new)
                (let (same, after) =
                    keep_fresh-keep_new now rest (insert h now seen) ((h, now) ∷ log)
                      (insert-Agrees now h seen log agrees) in
                  (ap (λ fresh. a ∷ fresh) same, after))
        ]

    fetch_all-answers_from :
        (now : ℕ) (fetches : List Fetch) (seen : Dict ℕ) (log : List (String × ℕ))
        → IsOrdered now fetches
        → Agrees now seen log
        → fetch_all fetches (record { ttl = ttl; seen = seen }) ≡ answers fetches log
    unfolding fetch_all answers
    fetch_all-answers_from now [] seen log ordered agrees = refl
    fetch_all-answers_from now ((t, err message) ∷ fetches) seen log ordered agrees =
        ap (λ rest. err message ∷ rest)
          (fetch_all-answers_from t fetches seen log ordered.1
            (λ k later le. agrees k later (omega (arith, ordered.0, le))))
    fetch_all-answers_from now ((t, ok articles) ∷ fetches) seen log ordered agrees =
        let (same, after) =
          keep_fresh-keep_new t articles seen log
            (λ k later le. agrees k later (omega (arith, ordered.0, le))) in
        rw same (
          ap (λ rest. ok (keep_new t articles log).0 ∷ rest)
            (fetch_all-answers_from t fetches (prune ttl t (keep_fresh hash ttl t articles seen).1)
              (keep_new t articles log).1 ordered.1
              (λ k later le.
                prune-lookup ttl t later (keep_fresh hash ttl t articles seen).1 k le
                ∙ after k later le)))

    -- While its clock does not go back, a new scraper answers each fetch with the articles whose hash it
    -- did not return within the time to live, as told by a log of all it returned: pruning the map is
    -- never seen, and a fetch that fails passes its error on and changes nothing.
    pub fetch_all-answers :
        (start : ℕ) (fetches : List Fetch)
        → IsOrdered start fetches
        → fetch_all fetches (new_scraper ttl) ≡ answers fetches []
    unfolding new_scraper lookup last_at
    fetch_all-answers start fetches ordered =
        fetch_all-answers_from start fetches [] [] ordered (λ k later le. refl)
