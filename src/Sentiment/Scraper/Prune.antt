-- ===== src/Sentiment/Scraper/Prune.antt =====
-- src/analysts/sentiment/scraper.go: what pruning leaves.
use navier_stocks.Base.{
  ℕ, ◌≤◌, ◌≡◌, refl, sym, ◌∙◌, inl, inr, true, false, Option, none, some, List, [], ◌∷◌, String,
  arith, Bool-cases,
}
use navier_stocks.Base.Text.{str_eq, str_eq_iff}
use navier_stocks.Base.Dict.{Dict, lookup, delete, keys, lookup-delete}
use navier_stocks.Sentiment.Scraper.{is_recent, is_expired, prune_keys, prune}

expired_later :
    (ttl now later : ℕ) (first : Option ℕ)
    → now ≤ later
    → is_expired ttl now first ≡ true
    → is_recent ttl later first ≡ false
expired_later ttl now later none le old = refl
expired_later ttl now later (some first) le old = ground (arith, old, le)

delete_unseen :
    (ttl now later : ℕ) (h k : String) (seen : Dict ℕ)
    → now ≤ later
    → is_expired ttl now (lookup h seen) ≡ true
    → is_recent ttl later (lookup k (delete h seen)) ≡ is_recent ttl later (lookup k seen)
delete_unseen ttl now later h k seen le old = elim (Bool-cases (str_eq h k)) [
  | inl same ↦
      simp (lookup-delete h k seen, same)
        (rw (← (str_eq_iff h k).0 same) (sym (expired_later ttl now later (lookup h seen) le old)))
  | inr other ↦ simp (lookup-delete h k seen, other) refl
]

-- To a later look, pruning takes nothing away that was still within the window.
prune_keys-lookup :
    (ttl now later : ℕ) (hs : List String) (seen : Dict ℕ) (k : String)
    → now ≤ later
    → is_recent ttl later (lookup k (prune_keys ttl now hs seen))
      ≡ is_recent ttl later (lookup k seen)
unfolding prune_keys
prune_keys-lookup ttl now later [] seen k le = refl
prune_keys-lookup ttl now later (h ∷ hs) seen k le =
    elim (Bool-cases (is_expired ttl now (lookup h seen))) [
      | inr young ↦ simp young (prune_keys-lookup ttl now later hs seen k le)
      | inl old ↦ simp old (
          prune_keys-lookup ttl now later hs (delete h seen) k le
          ∙ delete_unseen ttl now later h k seen le old)
    ]

pub prune-lookup :
    (ttl now later : ℕ) (seen : Dict ℕ) (k : String)
    → now ≤ later
    → is_recent ttl later (lookup k (prune ttl now seen)) ≡ is_recent ttl later (lookup k seen)
unfolding prune
prune-lookup ttl now later seen k le = prune_keys-lookup ttl now later (keys seen) seen k le
