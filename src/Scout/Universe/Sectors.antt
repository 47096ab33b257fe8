-- ===== src/Scout/Universe/Sectors.antt =====
-- src/analysts/quantitative/universe.go: the sectors of the resolved universe.
use navier_stocks.Base.{
  ◌≡◌, refl, ap, ◌∙◌, inl, inr, Bool, true, false, ◌||◌, ◌&&◌, Option, none, some, List, [], ◌∷◌,
  String, arith, if◌then◌else◌, All, Bool-cases,
}
use navier_stocks.Base.Text.{str_eq, str_eq_iff, is_empty}
use navier_stocks.Base.Trim.{trim, split}
use navier_stocks.Base.Dict.{Dict, lookup, lookup_or, insert, lookup-insert}
use navier_stocks.Scout.Universe.{
  UniverseEntry, Universe, default_entries, index_sectors, build_universe, sector_for_symbol,
  default_universe, override_entries, universe_of, resolve_universe, sector, as_sector_map,
}

abbrev pub contains : List UniverseEntry → String → Bool
contains [] symbol = false
contains (e ∷ es) symbol = str_eq e.symbol symbol || contains es symbol

-- An entry has the sector of the default entries, or is unknown to them; and its token is not known.
abbrev pub IsResolved : UniverseEntry → Type 0
IsResolved e = (e.sector ≡ sector_for_symbol e.symbol) × (e.exchange_token ≡ "")

lookup-index_sectors :
    (es : List UniverseEntry) (m : Dict String) (k : String)
    → All IsResolved es
    → lookup k (index_sectors m es)
      ≡ (if contains es k then some (sector_for_symbol k) else lookup k m)
unfolding index_sectors
lookup-index_sectors [] m k h = refl
lookup-index_sectors (e ∷ es) m k (h, hs) = elim (Bool-cases (contains es k)) [
  | inl later ↦
      rw (lookup-index_sectors es (insert e.symbol e.sector m) k hs, later) (ground (arith, later))
  | inr last ↦ elim (Bool-cases (str_eq e.symbol k)) [
    | inl same ↦
        let named = (str_eq_iff e.symbol k).0 same in
        rw (lookup-index_sectors es (insert e.symbol e.sector m) k hs, last, lookup-insert, same)
          (ap some (h.0 ∙ ap sector_for_symbol named))
    | inr other ↦
        rw (lookup-index_sectors es (insert e.symbol e.sector m) k hs, last, lookup-insert, other)
          refl
  ]
]

all_resolved : List UniverseEntry → Bool
all_resolved [] = true
all_resolved (e ∷ es) =
    str_eq e.sector (sector_for_symbol e.symbol) && is_empty e.exchange_token && all_resolved es

all_resolved_sound : (es : List UniverseEntry) → all_resolved es ≡ true → All IsResolved es
unfolding all_resolved
all_resolved_sound [] h = tt
all_resolved_sound (e ∷ es) h = (
  (
    (str_eq_iff e.sector (sector_for_symbol e.symbol)).0 (ground (arith, h)),
    (str_eq_iff e.exchange_token "").0 (ground (arith, h)),
  ),
  all_resolved_sound es (ground (arith, h)),
)

all_resolved-default_entries : all_resolved default_entries ≡ true
unfolding all_resolved default_entries sector_for_symbol
all_resolved-default_entries = refl

pub default_entries-IsResolved : All IsResolved default_entries
default_entries-IsResolved = all_resolved_sound default_entries all_resolved-default_entries

override_entries-IsResolved : (parts : List String) → All IsResolved (override_entries parts)
unfolding override_entries
override_entries-IsResolved [] = tt
override_entries-IsResolved (part ∷ parts) = elim (Bool-cases (is_empty (trim part))) [
  | inl blank ↦ rw blank (override_entries-IsResolved parts)
  | inr named ↦ rw named ((refl, refl), override_entries-IsResolved parts)
]

universe_of-IsResolved :
    (es : List UniverseEntry)
    → All IsResolved es
    → (All IsResolved (universe_of es).entries)
      × (universe_of es ≡ build_universe (universe_of es).entries)
unfolding default_universe build_universe
universe_of-IsResolved [] h = (default_entries-IsResolved, refl)
universe_of-IsResolved (e ∷ es) h = (h, refl)

pub resolve_universe-IsResolved :
    (raw : String)
    → (All IsResolved (resolve_universe raw).entries)
      × (resolve_universe raw ≡ build_universe (resolve_universe raw).entries)
unfolding resolve_universe
resolve_universe-IsResolved raw = elim (Bool-cases (is_empty raw)) [
  | inl unset ↦ rw unset (universe_of-IsResolved [] tt)
  | inr set ↦ rw set (
      universe_of-IsResolved (override_entries (split b',' raw))
        (override_entries-IsResolved (split b',' raw)))
]

-- Whatever QUANT_UNIVERSE holds, the sector map that the risk manager gets gives a symbol of the
-- universe the sector of the default entries, UNKNOWN for a symbol that is not among them, and every
-- other symbol UNKNOWN.
pub sector-resolve_universe :
    (raw symbol : String)
    → sector (as_sector_map (resolve_universe raw)) symbol ≡ (
        if contains (resolve_universe raw).entries symbol
        then sector_for_symbol symbol
        else "UNKNOWN")
unfolding sector as_sector_map build_universe lookup_or lookup
sector-resolve_universe raw symbol =
    let u = resolve_universe raw in
    let (resolved, built) = resolve_universe-IsResolved raw in
    let found =
      ap (λ (v : Universe). lookup symbol v.symbol_to_sector) built
      ∙ lookup-index_sectors u.entries [] symbol resolved in
    ap (λ (o : Option String). elim o [ none ↦ "UNKNOWN" | some v ↦ v ]) found ∙ ground arith
