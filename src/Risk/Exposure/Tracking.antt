-- ===== src/Risk/Exposure/Tracking.antt =====
-- src/analysts/riskmanager/exposure.go: the counters against the plain list of open positions that
-- they stand for, a `Book`, of which each entry is a side and a sector.
use navier_stocks.Base.{
  ℕ, suc, ◌+◌, ◌-◌, ◌<◌, ◌≡◌, refl, none, some, List, [], ◌∷◌, ◌++◌, String, arith, leb,
  if◌then◌else◌, length, length-append, inl, inr, Option-cases,
}
use navier_stocks.Base.Text.{str_eq, str_eq_iff, str_eq_refl}
use navier_stocks.Base.Dict
use navier_stocks.Base.Dict.{lookup-insert, lookup-delete}
use navier_stocks.Float.{Float64}
use navier_stocks.Models.{Side, Position, is_short}
use navier_stocks.Risk.{Refusal}
use navier_stocks.Risk.Exposure.{
  Exposure, new_exposure, entry_gate, register, release, sector_count_of, recount, refresh_from_db,
  release_sector,
}

abbrev pub Book : Type 0
Book = List (Side × String)

abbrev pub shorts_in : Book → ℕ
shorts_in [] = 0
shorts_in ((side, sector) ∷ b) = if is_short side then suc (shorts_in b) else shorts_in b

abbrev pub longs_in : Book → ℕ
longs_in [] = 0
longs_in ((side, sector) ∷ b) = if is_short side then longs_in b else suc (longs_in b)

abbrev pub held_in : String → Book → ℕ
held_in s [] = 0
held_in s ((side, sector) ∷ b) = if str_eq sector s then suc (held_in s b) else held_in s b

-- The totals of two books together, and of one with an entry in its middle.
shorts_in-append : (b c : Book) → shorts_in (b ++ c) ≡ shorts_in b + shorts_in c
shorts_in-append [] c = omega arith
shorts_in-append ((side, sector) ∷ b) c = ground (arith, shorts_in-append b c)

longs_in-append : (b c : Book) → longs_in (b ++ c) ≡ longs_in b + longs_in c
longs_in-append [] c = omega arith
longs_in-append ((side, sector) ∷ b) c = ground (arith, longs_in-append b c)

pub held_in-append : (s : String) (b c : Book) → held_in s (b ++ c) ≡ held_in s b + held_in s c
held_in-append s [] c = omega arith
held_in-append s ((side, sector) ∷ b) c = ground (arith, held_in-append s b c)

-- Every side is counted once.
pub longs-add-shorts : (b : Book) → longs_in b + shorts_in b ≡ length b
longs-add-shorts [] = omega arith
longs-add-shorts ((side, sector) ∷ b) = ground (arith, longs-add-shorts b)

-- One less in the sector, and the same everywhere else.
lookup_or-release_sector :
    (sector s : String) (m : Dict.Dict ℕ)
    → 0 < Dict.lookup_or sector m 0
    → Dict.lookup_or s (release_sector sector m) 0 + (if str_eq sector s then 1 else 0)
      ≡ Dict.lookup_or s m 0
unfolding Dict.lookup_or
lookup_or-release_sector sector s m held = elim (Option-cases (Dict.lookup sector m)) [
  | inl e ↦ ground (arith, e)
  | inr (n, e) ↦
      rw (e, release_sector)
        (ground (
          arith,
          e,
          str_eq_iff sector s,
          lookup-delete sector s m,
          lookup-insert sector s (n - 1) m,
        ))
]

module _ {F : Type 0} where
  pub record Tracks (e : Exposure F) (b : Book) : Type 0 where
    pub total : e.total ≡ length b
    pub longs : e.longs ≡ longs_in b
    pub shorts : e.shorts ≡ shorts_in b
    pub sectors : (s : String) → sector_count_of e s ≡ held_in s b

  pub new_exposure-Tracks :
      ⦃fl : Float64 F⦄ → (max_sector max_total : ℕ) → Tracks (new_exposure max_sector max_total) []
  unfolding new_exposure sector_count_of Dict.lookup
  new_exposure-Tracks max_sector max_total = record {
    total = refl;
    longs = refl;
    shorts = refl;
    sectors = λ s. refl;
  }

  sector_count_of-register :
      (e : Exposure F) (side : Side) (sector s : String)
      → sector_count_of (register e side sector) s
        ≡ sector_count_of e s + (if str_eq sector s then 1 else 0)
  unfolding register sector_count_of
  sector_count_of-register e side sector s = ground (
    arith,
    str_eq_iff sector s,
    lookup-insert sector s (suc (Dict.lookup_or sector e.sector_count 0)) e.sector_count,
  )

  -- `Register` counts one more position.
  pub register-Tracks :
      (e : Exposure F) (b : Book) (side : Side) (sector : String)
      → Tracks e b
      → Tracks (register e side sector) ((side, sector) ∷ b)
  unfolding register
  register-Tracks e b side sector t = record {
    total = ground arith;
    longs = ground arith;
    shorts = ground arith;
    sectors = λ s. ground (arith, t.sectors s, sector_count_of-register e side sector s);
  }

  release-sectors :
      (e : Exposure F) (older newer : Book) (side : Side) (sector : String)
      → ((s : String) → sector_count_of e s ≡ held_in s (newer ++ (side, sector) ∷ older))
      → (s : String) → sector_count_of (release e side sector) s ≡ held_in s (newer ++ older)
  unfolding release sector_count_of
  release-sectors e older newer side sector h s = ground (
    arith,
    h s,
    h sector,
    str_eq_refl sector,
    held_in-append s newer older,
    held_in-append s newer ((side, sector) ∷ older),
    held_in-append sector newer ((side, sector) ∷ older),
    lookup_or-release_sector sector s e.sector_count,
  )

  -- `Release` of a position that is counted takes exactly that one out, wherever it stands.
  pub release-Tracks :
      (e : Exposure F) (older newer : Book) (side : Side) (sector : String)
      → Tracks e (newer ++ (side, sector) ∷ older)
      → Tracks (release e side sector) (newer ++ older)
  unfolding release
  release-Tracks e older newer side sector t = record {
    total =
        omega
          (arith, t.total, length-append newer older, length-append newer ((side, sector) ∷ older));
    longs = ground (
      arith,
      t.longs,
      longs_in-append newer older,
      longs_in-append newer ((side, sector) ∷ older),
    );
    shorts = ground (
      arith,
      t.shorts,
      shorts_in-append newer older,
      shorts_in-append newer ((side, sector) ∷ older),
    );
    sectors = release-sectors e older newer side sector t.sectors;
  }

  abbrev pub entries : List (Position F) → Book
  entries [] = []
  entries (p ∷ ps) = (p.side, p.sector) ∷ entries ps

  recount-counters :
      (ps : List (Position F)) (e : Exposure F)
      → ((recount e ps).total ≡ e.total + length (entries ps))
        × ((recount e ps).longs ≡ e.longs + longs_in (entries ps))
        × ((recount e ps).shorts ≡ e.shorts + shorts_in (entries ps))
  unfolding recount register
  recount-counters [] e = omega arith
  recount-counters (p ∷ ps) e = ground (arith, recount-counters ps (register e p.side p.sector))

  recount-sectors :
      (ps : List (Position F)) (e : Exposure F) (s : String)
      → sector_count_of (recount e ps) s ≡ sector_count_of e s + held_in s (entries ps)
  unfolding recount register
  recount-sectors [] e s = omega arith
  recount-sectors (p ∷ ps) e s = ground (
    arith,
    recount-sectors ps (register e p.side p.sector) s,
    sector_count_of-register e p.side p.sector s,
  )

  sector_count_of-empty :
      (e : Exposure F) (s : String) → e.sector_count ≡ [] → sector_count_of e s ≡ 0
  unfolding sector_count_of Dict.lookup
  sector_count_of-empty e s h = rw h

  recount-ceilings :
      (ps : List (Position F)) (e : Exposure F)
      → ((recount e ps).max_sector ≡ e.max_sector)
        × ((recount e ps).max_total ≡ e.max_total)
        × ((recount e ps).max_bias ≡ e.max_bias)
  unfolding recount register
  recount-ceilings [] e = (refl, refl, refl)
  recount-ceilings (p ∷ ps) e = recount-ceilings ps (register e p.side p.sector)

  -- `RefreshFromDB` makes the counters those of the positions given, whatever they were before, and
  -- leaves the three ceilings alone.
  pub refresh_from_db-Tracks :
      (e : Exposure F) (ps : List (Position F))
      → Tracks (refresh_from_db e ps) (entries ps)
        × ((refresh_from_db e ps).max_sector ≡ e.max_sector)
        × ((refresh_from_db e ps).max_total ≡ e.max_total)
        × ((refresh_from_db e ps).max_bias ≡ e.max_bias)
  unfolding refresh_from_db
  refresh_from_db-Tracks e ps = (
    counted,
    (recount-ceilings ps cleared).0,
    (recount-ceilings ps cleared).1,
    (recount-ceilings ps cleared).2,
  )
    where
      cleared : Exposure F
      cleared = record e { total = 0; longs = 0; shorts = 0; sector_count = [] }

      counted : Tracks (recount cleared ps) (entries ps)
      counted = record {
        total = omega (arith, recount-counters ps cleared);
        longs = omega (arith, recount-counters ps cleared);
        shorts = omega (arith, recount-counters ps cleared);
        sectors =
            λ s. omega (arith, recount-sectors ps cleared s, sector_count_of-empty cleared s refl);
      }

  -- With counters that are those of the open positions and a sector ceiling above 0, Gates 1 and 2
  -- refuse an entry just when its sector or the whole holds as many positions as its ceiling; the
  -- sector's is asked first.
  pub entry_gate-Tracks :
      (e : Exposure F) (b : Book) (sector : String)
      → Tracks e b
      → 0 < e.max_sector
      → entry_gate e sector ≡ (
          if leb e.max_sector (held_in sector b)
          then some Refusal.sector_limit
          else if leb e.max_total (length b)
          then some Refusal.total_limit
          else none)
  unfolding entry_gate sector_count_of Dict.lookup_or
  entry_gate-Tracks e b sector t h = ground (arith, t.sectors sector)
