-- ===== src/Risk/Exposure.antt =====
-- src/analysts/riskmanager/exposure.go: the tracker of open positions behind Gates 1 to 3. The
-- functions are taken one at a time, as calls from one goroutine. A counter is an int64 that is
-- never negative between calls, and counts calls, so it is a number here.
pub mod Tracking
pub mod AnyOrder
pub mod Ceilings
use navier_stocks.Base.{
  ℕ, suc, ◌+◌, ◌-◌, Bool, true, false, Option, none, some, List, [], ◌∷◌, String, leb,
  if◌then◌else◌,
}
use navier_stocks.Base.Dict
use navier_stocks.Base.Dict.{Dict}
use navier_stocks.Float.{Float64}
use navier_stocks.Models.{Side, Position, is_short}
use navier_stocks.Risk.{Refusal}

abbrev pub default_max_sector_positions : ℕ
default_max_sector_positions = 1

abbrev pub default_max_total_positions : ℕ
default_max_total_positions = 4

-- `Exposure`: the sync.Map `sectorCount`, the three atomic counters and the three ceilings.
pub record Exposure (F : Type 0) : Type 0 where
  pub sector_count : Dict ℕ
  pub total : ℕ
  pub longs : ℕ
  pub shorts : ℕ
  pub max_sector : ℕ
  pub max_total : ℕ
  pub max_bias : F

-- `Add(-1)`, undone when the counter fell below 0: the subtraction that stops at 0.
abbrev drop_one : ℕ → ℕ
drop_one n = n - 1

-- `LoadOrStore(sector, 0)` and `Add(1)`.
abbrev pub count_sector : String → Dict ℕ → Dict ℕ
count_sector sector m = Dict.insert sector (suc (Dict.lookup_or sector m 0)) m

-- `Add(-1)` on a sector that is present, which is deleted when the count comes to 0 or below.
abbrev release_sector : String → Dict ℕ → Dict ℕ
release_sector sector m = elim (Dict.lookup sector m) [
  | none ↦ m
  | some n ↦ if leb n 1 then Dict.delete sector m else Dict.insert sector (n - 1) m
]

-- The test of Gate 1 on what the map holds for the sector: an absent sector passes.
abbrev pub at_least : ℕ → Option ℕ → Bool
at_least limit none = false
at_least limit (some n) = leb limit n

module _ {F : Type 0} where
  -- `NewExposure`, with Gate 3's default ceiling 3.0.
  unfoldable pub new_exposure : ⦃fl : Float64 F⦄ → ℕ → ℕ → Exposure F
  new_exposure ⦃fl⦄ max_sector max_total = record {
    sector_count = [];
    total = 0;
    longs = 0;
    shorts = 0;
    max_sector = max_sector;
    max_total = max_total;
    max_bias = fl.decimal 3 0;
  }

  -- `(*Exposure).EntryGate`: Gate 1, then Gate 2.
  unfoldable pub entry_gate : Exposure F → String → Option Refusal
  entry_gate e sector =
      if at_least e.max_sector (Dict.lookup sector e.sector_count)
      then some Refusal.sector_limit
      else if leb e.max_total e.total
      then some Refusal.total_limit
      else none

  -- `(*Exposure).Register`
  unfoldable pub register : Exposure F → Side → String → Exposure F
  register e side sector = record e {
    total = suc e.total;
    shorts = if is_short side then suc e.shorts else e.shorts;
    longs = if is_short side then e.longs else suc e.longs;
    sector_count = count_sector sector e.sector_count;
  }

  -- `(*Exposure).Release`
  unfoldable pub release : Exposure F → Side → String → Exposure F
  release e side sector = record e {
    sector_count = release_sector sector e.sector_count;
    total = drop_one e.total;
    shorts = if is_short side then drop_one e.shorts else e.shorts;
    longs = if is_short side then e.longs else drop_one e.longs;
  }

  -- `(*Exposure).SectorCount`
  unfoldable pub sector_count_of : Exposure F → String → ℕ
  unfolding Dict.lookup_or
  sector_count_of e sector = Dict.lookup_or sector e.sector_count 0

  -- `(*Exposure).RefreshFromDB`: the counters are reset, and each position is counted anew.
  unfoldable pub recount : Exposure F → List (Position F) → Exposure F
  recount e [] = e
  recount e (p ∷ ps) =
      recount
        (record e {
          total = suc e.total;
          shorts = if is_short p.side then suc e.shorts else e.shorts;
          longs = if is_short p.side then e.longs else suc e.longs;
          sector_count = count_sector p.sector e.sector_count;
        })
        ps

  unfoldable pub refresh_from_db : Exposure F → List (Position F) → Exposure F
  unfolding recount
  refresh_from_db e ps =
      recount (record e { total = 0; longs = 0; shorts = 0; sector_count = [] }) ps
