-- ===== src/Sentiment/Scraper/Again.antt =====
-- src/analysts/sentiment/scraper.go: the same articles once more within the time to live.
use navier_stocks.Base.{
  ℕ, ◌+◌, ◌<◌, ◌≤◌, ◌≡◌, refl, ap, ◌∙◌, inl, inr, true, List, [], ◌∷◌, String, arith, Bool-cases,
}
use navier_stocks.Base.Try.{ok}
use navier_stocks.Base.Text.{str_eq}
use navier_stocks.Base.Dict.{Dict, lookup, insert, lookup-insert, lookup-insert_self}
use navier_stocks.Models.{Article}
use navier_stocks.Sentiment.Scraper.{
  new_scraper, article_hash, is_recent, keep_fresh, prune, fetch_fresh,
}
use navier_stocks.Sentiment.Scraper.Prune.{prune-lookup}

module _ (hash : String → String) (ttl now later : ℕ) (le : now ≤ later)
    (within : later < now + ttl) where
  abbrev WasSeen : Dict ℕ → String → Type 0
  WasSeen seen k = is_recent ttl later (lookup k seen) ≡ true

  abbrev AllSeen : List Article → Dict ℕ → Type 0
  AllSeen [] seen = Unit
  AllSeen (a ∷ rest) seen = WasSeen seen (article_hash hash a) × AllSeen rest seen

  AllSeen-mono :
      (articles : List Article) (seen seen' : Dict ℕ)
      → ((k : String) → WasSeen seen k → WasSeen seen' k)
      → AllSeen articles seen
      → AllSeen articles seen'
  AllSeen-mono [] seen seen' step all = tt
  AllSeen-mono (a ∷ rest) seen seen' step all =
      (step (article_hash hash a) all.0, AllSeen-mono rest seen seen' step all.1)

  -- What is seen now, or known to be, is seen later on.
  abbrev Lasts : Dict ℕ → Type 0
  Lasts seen = (k : String) → is_recent ttl now (lookup k seen) ≡ true → WasSeen seen k

  insert-WasSeen : (h k : String) (seen : Dict ℕ) → WasSeen seen k → WasSeen (insert h now seen) k
  insert-WasSeen h k seen was = elim (Bool-cases (str_eq h k)) [
    | inl same ↦ simp (lookup-insert h k now seen, same) (ground (arith, within))
    | inr other ↦ simp (lookup-insert h k now seen, other) was
  ]

  insert-Lasts : (h : String) (seen : Dict ℕ) → Lasts seen → Lasts (insert h now seen)
  insert-Lasts h seen lasts k = elim (Bool-cases (str_eq h k)) [
    | inl same ↦ simp (lookup-insert h k now seen, same) (λ recent. ground (arith, within))
    | inr other ↦ simp (lookup-insert h k now seen, other) (lasts k)
  ]

  now_seen : (h : String) (seen : Dict ℕ) → WasSeen (insert h now seen) h
  now_seen h seen = simp (lookup-insert_self h now seen) (ground (arith, within))

  keep_fresh-WasSeen :
      (articles : List Article) (seen : Dict ℕ) (k : String)
      → WasSeen seen k
      → WasSeen (keep_fresh hash ttl now articles seen).1 k
  unfolding keep_fresh
  keep_fresh-WasSeen [] seen k was = was
  keep_fresh-WasSeen (a ∷ rest) seen k was =
      let h = article_hash hash a in
      elim (Bool-cases (is_recent ttl now (lookup h seen))) [
        | inl old ↦ simp old (keep_fresh-WasSeen rest seen k was)
        | inr new ↦
            simp new (keep_fresh-WasSeen rest (insert h now seen) k (insert-WasSeen h k seen was))
      ]

  keep_fresh-AllSeen :
      (articles : List Article) (seen : Dict ℕ)
      → Lasts seen
      → AllSeen articles (keep_fresh hash ttl now articles seen).1
  unfolding keep_fresh
  keep_fresh-AllSeen [] seen lasts = tt
  keep_fresh-AllSeen (a ∷ rest) seen lasts =
      let h = article_hash hash a in
      elim (Bool-cases (is_recent ttl now (lookup h seen))) [
        | inl old ↦
            simp old
              (keep_fresh-WasSeen rest seen h (lasts h old), keep_fresh-AllSeen rest seen lasts)
        | inr new ↦ simp new (
          keep_fresh-WasSeen rest (insert h now seen) h (now_seen h seen),
          keep_fresh-AllSeen rest (insert h now seen) (insert-Lasts h seen lasts),
        )
      ]

  keep_fresh-seen :
      (articles : List Article) (seen : Dict ℕ)
      → AllSeen articles seen
      → keep_fresh hash ttl later articles seen ≡ ([], seen)
  unfolding keep_fresh
  keep_fresh-seen [] seen all = refl
  keep_fresh-seen (a ∷ rest) seen all = simp (all.0) (keep_fresh-seen rest seen all.1)

  -- Articles that a new scraper fetched are no more returned until the time to live is over.
  pub fetch_fresh-again :
      (articles : List Article)
      → (fetch_fresh hash later
          (ok articles)
          (fetch_fresh hash now (ok articles) (new_scraper ttl)).1).0
        ≡ ok []
  unfolding fetch_fresh new_scraper lookup
  fetch_fresh-again articles =
      let seen = (keep_fresh hash ttl now articles []).1 in
      ap (λ (found : List Article × Dict ℕ). ok found.0)
        (keep_fresh-seen articles (prune ttl now seen) (
          AllSeen-mono articles seen (prune ttl now seen)
            (λ k was. prune-lookup ttl now later seen k le ∙ was)
            (keep_fresh-AllSeen articles [] (λ k seen. seen))))
