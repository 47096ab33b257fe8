-- ===== src/Scout/Universe.antt =====
-- src/analysts/quantitative/universe.go: the securities that the scout tracks, and the sectors that
-- it shares with the risk manager. The value of QUANT_UNIVERSE is an argument, empty if it is not set.
pub mod Sectors
use navier_stocks.Base.{
  Bool, true, false, Option, none, some, List, [], ◌∷◌, String, map, if◌then◌else◌,
}
use navier_stocks.Base.Text.{str_eq, is_empty}
use navier_stocks.Base.Trim.{trim, split}
use navier_stocks.Base.Dict.{Dict, lookup, lookup_or, insert}
use navier_stocks.Groww.Types.{Exchange, Segment, exchange_nse, segment_cash}

-- `UniverseEntry`
pub record UniverseEntry : Type 0 where
  pub symbol : String
  pub exchange : Exchange
  pub segment : Segment
  pub exchange_token : String
  pub sector : String

-- `Universe`
pub record Universe : Type 0 where
  pub entries : List UniverseEntry
  pub symbols : List String
  pub token_to_symbol : Dict String
  pub symbol_to_sector : Dict String

-- An entry whose token is not known.
abbrev pub nse_cash : String → String → UniverseEntry
nse_cash symbol sector = record {
  symbol = symbol;
  exchange = exchange_nse;
  segment = segment_cash;
  exchange_token = "";
  sector = sector;
}

-- `defaultEntries`
unfoldable pub default_entries : List UniverseEntry
default_entries =
    nse_cash "TCS" "IT"
    ∷ nse_cash "INFY" "IT"
    ∷ nse_cash "WIPRO" "IT"
    ∷ nse_cash "HCLTECH" "IT"
    ∷ nse_cash "TECHM" "IT"
    ∷ nse_cash "HDFCBANK" "BANKING"
    ∷ nse_cash "ICICIBANK" "BANKING"
    ∷ nse_cash "SBIN" "BANKING"
    ∷ nse_cash "KOTAKBANK" "BANKING"
    ∷ nse_cash "AXISBANK" "BANKING"
    ∷ nse_cash "TATAMOTORS" "AUTO"
    ∷ nse_cash "M&M" "AUTO"
    ∷ nse_cash "BAJAJ-AUTO" "AUTO"
    ∷ nse_cash "MARUTI" "AUTO"
    ∷ nse_cash "EICHERMOT" "AUTO"
    ∷ nse_cash "RELIANCE" "ENERGY"
    ∷ nse_cash "ONGC" "ENERGY"
    ∷ nse_cash "NTPC" "ENERGY"
    ∷ nse_cash "POWERGRID" "ENERGY"
    ∷ nse_cash "ADANIENT" "ENERGY"
    ∷ nse_cash "ITC" "FMCG"
    ∷ nse_cash "HUL" "FMCG"
    ∷ nse_cash "BRITANNIA" "FMCG"
    ∷ nse_cash "NESTLEIND" "FMCG"
    ∷ nse_cash "TITAN" "FMCG"
    ∷ []

abbrev pub index_token : UniverseEntry → Dict String → Dict String
index_token e m = if is_empty e.exchange_token then m else insert e.exchange_token e.symbol m

unfoldable pub index_tokens : Dict String → List UniverseEntry → Dict String
index_tokens m [] = m
index_tokens m (e ∷ es) = index_tokens (index_token e m) es

unfoldable pub index_sectors : Dict String → List UniverseEntry → Dict String
index_sectors m [] = m
index_sectors m (e ∷ es) = index_sectors (insert e.symbol e.sector m) es

-- `buildUniverse`
unfoldable pub build_universe : List UniverseEntry → Universe
unfolding index_tokens index_sectors
build_universe entries = record {
  entries = entries;
  symbols = map (λ (e : UniverseEntry). e.symbol) entries;
  token_to_symbol = index_tokens [] entries;
  symbol_to_sector = index_sectors [] entries;
}

-- The loop of `sectorForSymbol`.
unfoldable pub sector_in : List UniverseEntry → String → String
sector_in [] symbol = "UNKNOWN"
sector_in (e ∷ es) symbol = if str_eq e.symbol symbol then e.sector else sector_in es symbol

-- `sectorForSymbol`
unfoldable pub sector_for_symbol : String → String
unfolding sector_in default_entries
sector_for_symbol symbol = sector_in default_entries symbol

-- `DefaultUniverse`
unfoldable pub default_universe : Universe
unfolding build_universe default_entries
default_universe = build_universe default_entries

-- The entries of the override's parts, without the empty ones.
unfoldable pub override_entries : List String → List UniverseEntry
unfolding trim sector_for_symbol
override_entries [] = []
override_entries (part ∷ parts) =
    let symbol = trim part in
    if is_empty symbol
    then override_entries parts
    else nse_cash symbol (sector_for_symbol symbol) ∷ override_entries parts

abbrev pub universe_of : List UniverseEntry → Universe
universe_of [] = default_universe
universe_of (e ∷ es) = build_universe (e ∷ es)

-- `ResolveUniverse`
unfoldable pub resolve_universe : String → Universe
unfolding split override_entries
resolve_universe raw =
    if is_empty raw then default_universe else universe_of (override_entries (split b',' raw))

-- `SectorMap`
abbrev pub SectorMap : Type 0
SectorMap = Dict String

-- `(SectorMap).Sector`
unfoldable pub sector : SectorMap → String → String
sector sm symbol = lookup_or symbol sm "UNKNOWN"

-- `(*Universe).AsSectorMap`
unfoldable pub as_sector_map : Universe → SectorMap
as_sector_map u = u.symbol_to_sector
