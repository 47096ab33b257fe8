-- ===== src/Base/Dict.antt =====
-- Go's maps keyed by strings, as association lists with at most one entry for a key once they are
-- built by `insert`.
use navier_stocks.Base.{
  suc, ◌≡◌, refl, ap, ◌∙◌, String, Option, none, some, List, [], ◌∷◌, arith, map, length,
  if◌then◌else◌,
}
use navier_stocks.Base.Text.{str_eq, str_eq_iff, str_eq_refl}

abbrev pub Dict : Type 0 → Type 0
Dict V = List (String × V)

module _ {V : Type 0} where
  unfoldable pub lookup : String → Dict V → Option V
  lookup k [] = none
  lookup k ((j, v) ∷ m) = if str_eq j k then some v else lookup k m

  unfoldable pub insert : String → V → Dict V → Dict V
  insert k v [] = (k, v) ∷ []
  insert k v ((j, w) ∷ m) = if str_eq j k then (k, v) ∷ m else (j, w) ∷ insert k v m

  unfoldable pub delete : String → Dict V → Dict V
  delete k [] = []
  delete k ((j, w) ∷ m) = if str_eq j k then delete k m else (j, w) ∷ delete k m

  unfoldable pub lookup_or : String → Dict V → V → V
  lookup_or k m d = elim (lookup k m) [ none ↦ d | some v ↦ v ]

  abbrev pub keys : Dict V → List String
  keys = map (λ (p : String × V). p.0)

  pub lookup-insert :
      (k j : String) (v : V) (m : Dict V)
      → lookup j (insert k v m) ≡ (if str_eq k j then some v else lookup j m)
  unfolding lookup insert
  lookup-insert k j v [] = refl
  lookup-insert k j v ((i, w) ∷ m) =
      ground (arith, str_eq_iff k j, str_eq_iff i k, str_eq_iff i j, lookup-insert k j v m)

  pub lookup-delete :
      (k j : String) (m : Dict V)
      → lookup j (delete k m) ≡ (if str_eq k j then none else lookup j m)
  unfolding lookup delete
  lookup-delete k j [] = ground arith
  lookup-delete k j ((i, w) ∷ m) =
      ground (arith, str_eq_iff k j, str_eq_iff i k, str_eq_iff i j, lookup-delete k j m)

  pub lookup-insert_self : (k : String) (v : V) (m : Dict V) → lookup k (insert k v m) ≡ some v
  lookup-insert_self k v m = simp (lookup-insert, str_eq_refl)

  pub lookup_or-insert :
      (k j : String) (v : V) (m : Dict V) (d : V)
      → lookup_or j (insert k v m) d ≡ (if str_eq k j then v else lookup_or j m d)
  unfolding lookup_or
  lookup_or-insert k j v m d =
      ap (λ (o : Option V). elim o [ none ↦ d | some w ↦ w ]) (lookup-insert k j v m) ∙ ground arith

  -- A new key adds one entry, and a known one none.
  pub length-insert :
      (k : String) (v : V) (m : Dict V)
      → length (insert k v m) ≡ elim (lookup k m) [ none ↦ suc (length m) | some w ↦ length m ]
  unfolding lookup insert
  length-insert k v [] = refl
  length-insert k v ((i, w) ∷ m) = ground (arith, length-insert k v m)
