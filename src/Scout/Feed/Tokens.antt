-- ===== src/Scout/Feed/Tokens.antt =====
-- src/analysts/quantitative/feed.go: which symbol a token of the feed stands for.
use navier_stocks.Base.{
  ◌≡◌, refl, sym, ap, ◌∙◌, inl, inr, true, false, Option, none, some, List, [], ◌∷◌, String, arith,
  if◌then◌else◌, All, Bool-cases, Option-cases,
}
use navier_stocks.Base.Text.{str_eq, str_eq_iff, is_empty}
use navier_stocks.Base.Dict.{Dict, lookup, insert, lookup-insert}
use navier_stocks.Float.{Float64}
use navier_stocks.Scout.Universe.{
  UniverseEntry, Universe, build_universe, index_tokens, resolve_universe,
}
use navier_stocks.Scout.Universe.Sectors.{IsResolved, resolve_universe-IsResolved}
use navier_stocks.Scout.Feed.{
  FeedConnector, Update, symbol_in, token_symbol, process_updates, process_snapshot, process_update,
}

-- The symbol of the last entry with a token, or `o`.
abbrev pub last_symbol : Option String → List UniverseEntry → String → Option String
last_symbol o [] token = o
last_symbol o (e ∷ es) token =
    last_symbol (if str_eq e.exchange_token token then some e.symbol else o) es token

other_of_blank :
    (s token : String) → is_empty s ≡ true → is_empty token ≡ false → str_eq s token ≡ false
other_of_blank s token b h =
    ground (arith, str_eq_iff s "", str_eq_iff s token, str_eq_iff token "")

lookup-index_tokens :
    (es : List UniverseEntry) (m : Dict String) (token : String)
    → is_empty token ≡ false
    → lookup token (index_tokens m es) ≡ last_symbol (lookup token m) es token
unfolding index_tokens
lookup-index_tokens [] m token h = refl
lookup-index_tokens (e ∷ es) m token h = elim (Bool-cases (is_empty e.exchange_token)) [
  | inl blank ↦
      simp (blank, other_of_blank e.exchange_token token blank h) (lookup-index_tokens es m token h)
  | inr known ↦ simp known (
      lookup-index_tokens es (insert e.exchange_token e.symbol m) token h
      ∙ ap (λ o. last_symbol o es token) (lookup-insert e.exchange_token token e.symbol m))
]

last_symbol-some :
    (es : List UniverseEntry) (symbol token : String)
    → (found : String) × (last_symbol (some symbol) es token ≡ some found)
last_symbol-some [] symbol token = (symbol, refl)
last_symbol-some (e ∷ es) symbol token = elim (Bool-cases (str_eq e.exchange_token token)) [
  | inl same ↦ simp same (last_symbol-some es e.symbol token)
  | inr other ↦ simp other (last_symbol-some es symbol token)
]

-- The scan finds nothing where no entry has the token.
symbol_in-none :
    (es : List UniverseEntry) (token : String)
    → last_symbol none es token ≡ none
    → symbol_in es token ≡ none
unfolding symbol_in
symbol_in-none [] token h = refl
symbol_in-none (e ∷ es) token h = elim (Bool-cases (str_eq e.exchange_token token)) [
  | inl same ↦
      let (found, e') = last_symbol-some es e.symbol token in
      let clash : none ≡ some found = sym (simp same at h) ∙ e' in cc
  | inr other ↦ simp other (symbol_in-none es token (simp other at h))
]

-- A token that is not empty stands for the symbol of the last entry that has it, and for none if
-- there is no such entry; so the scan over the entries never finds what the map does not.
pub token_symbol-last_symbol :
    (es : List UniverseEntry) (token : String)
    → is_empty token ≡ false
    → token_symbol (build_universe es) token ≡ last_symbol none es token
unfolding token_symbol build_universe lookup
token_symbol-last_symbol es token h = elim (Option-cases (last_symbol none es token)) [
  | inl absent ↦ rw (lookup-index_tokens es [] token h, absent, symbol_in-none es token absent) refl
  | inr (symbol, found) ↦ rw (lookup-index_tokens es [] token h, found) refl
]

last_symbol-none :
    (es : List UniverseEntry) (token : String)
    → All IsResolved es
    → is_empty token ≡ false
    → last_symbol none es token ≡ none
last_symbol-none [] token r h = refl
last_symbol-none (e ∷ es) token r h =
    simp (other_of_blank e.exchange_token token ((str_eq_iff e.exchange_token "").1 r.0.1) h)
      (last_symbol-none es token r.1 h)

-- No token of the feed stands for a symbol of a resolved universe.
token_symbol-resolve_universe :
    (raw token : String) → is_empty token ≡ false → token_symbol (resolve_universe raw) token ≡ none
token_symbol-resolve_universe raw token h =
    let (resolved, built) = resolve_universe-IsResolved raw in
    ap (λ u. token_symbol u token) built
    ∙ token_symbol-last_symbol (resolve_universe raw).entries token h
    ∙ last_symbol-none (resolve_universe raw).entries token resolved h

module _ {F : Type 0} ⦃fl : Float64 F⦄ where
  abbrev pub HasToken : Update F → Type 0
  HasToken up = is_empty up.token_key ≡ false

  process_updates_silent :
      (raw : String) (ups : List (Update F)) (fc : FeedConnector F)
      → fc.universe ≡ resolve_universe raw
      → All HasToken ups
      → process_updates ups fc ≡ fc
  unfolding process_updates
  process_updates_silent raw [] fc u h = refl
  process_updates_silent raw (up ∷ ups) fc u h =
      let unknown =
        ap (λ (v : Universe). token_symbol v up.token_key) u
        ∙ token_symbol-resolve_universe raw up.token_key h.0 in
      ap (λ found. process_updates ups (process_update up found fc)) unknown
      ∙ process_updates_silent raw ups fc u h.1

  -- The universe that `ResolveUniverse` gives, whatever QUANT_UNIVERSE holds, has no tokens. A connector
  -- over it takes no tick of a snapshot whose tokens are not empty: it stores and publishes nothing.
  pub process_snapshot_silent :
      (raw : String) (ups : List (Update F)) (fc : FeedConnector F)
      → fc.universe ≡ resolve_universe raw
      → All HasToken ups
      → process_snapshot (some ups) fc ≡ fc
  unfolding process_snapshot
  process_snapshot_silent raw ups fc u h = process_updates_silent raw ups fc u h
