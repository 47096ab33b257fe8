-- ===== src/Risk/Exposure/Ceilings.antt =====
-- src/analysts/riskmanager/exposure.go: what Gates 1 and 2 guarantee over a history of entries and
-- exits, and what a refresh from a database that lags behind does to them.
use mathlib.Core.List.{Permᴰ}
use navier_stocks.Base.{
  ℕ, ◌≤◌, ◌<◌, ◌≡◌, refl, none, List, [], ◌∷◌, ◌++◌, String, arith, length, length-append, ◌∙◌,
}
use navier_stocks.Base.Text.{str_eq_iff}
use navier_stocks.Float.{Float64}
use navier_stocks.Models.{Side, Position}
use navier_stocks.Risk.Exposure.{
  Exposure, new_exposure, entry_gate, register, release, refresh_from_db,
}
use navier_stocks.Risk.Exposure.AnyOrder.{perm-SameCounts, Tracks-any_order}
use navier_stocks.Risk.Exposure.Tracking.{
  Book, Tracks, held_in, held_in-append, entries, new_exposure-Tracks, register-Tracks,
  release-Tracks, entry_gate-Tracks, refresh_from_db-Tracks,
}

module _ {F : Type 0} where
  -- One event of a trading day: an entry that the gates let through, the exit of a position that is
  -- held, or a refresh from a database whose open positions are those of the book, in any order.
  pub data Step : Exposure F → Book → Exposure F → Book → Type 0 where
    enter :
        (e : Exposure F) (b : Book) (side : Side) (sector : String)
        → entry_gate e sector ≡ none
        → Step e b (register e side sector) ((side, sector) ∷ b)
    leave :
        (e : Exposure F) (b c : Book) (side : Side) (sector : String) (newer older : Book)
        → b ≡ newer ++ (side, sector) ∷ older
        → c ≡ newer ++ older
        → Step e b (release e side sector) c
    sync :
        (e : Exposure F) (b : Book) (ps : List (Position F))
        → Permᴰ (entries ps) b
        → Step e b (refresh_from_db e ps) b

  pub data Reach (e : Exposure F) (b : Book) : Exposure F → Book → Type 0 where
    here : Reach e b e b
    next :
        {e' e'' : Exposure F} {b' b'' : Book}
        → Reach e b e' b'
        → Step e' b' e'' b''
        → Reach e b e'' b''

  -- The counters are those of the book, and the book is within the ceilings.
  pub record Within (max_sector max_total : ℕ) (e : Exposure F) (b : Book) : Type 0 where
    pub tracked : Tracks e b
    pub same_sector : e.max_sector ≡ max_sector
    pub same_total : e.max_total ≡ max_total
    pub some_sector : 0 < max_sector
    pub total_ok : length b ≤ max_total
    pub sector_ok : (s : String) → held_in s b ≤ max_sector

  enter-sector :
      (max_sector max_total : ℕ) (e : Exposure F) (b : Book) (side : Side) (sector : String)
      → Within max_sector max_total e b
      → entry_gate e sector ≡ none
      → (length b < max_total) × (held_in sector b < max_sector)
  enter-sector max_sector max_total e b side sector w g = ground (
    arith,
    w.same_sector,
    w.same_total,
    entry_gate-Tracks e b sector w.tracked (omega (arith, w.same_sector, w.some_sector)),
  )

  pub enter-Within :
      (m n : ℕ) (e : Exposure F) (b : Book) (side : Side) (sector : String)
      → Within m n e b
      → entry_gate e sector ≡ none
      → Within m n (register e side sector) ((side, sector) ∷ b)
  unfolding register
  enter-Within m n e b side sector w g = record {
    tracked = register-Tracks e b side sector w.tracked;
    same_sector = w.same_sector;
    same_total = w.same_total;
    some_sector = w.some_sector;
    total_ok = omega (arith, enter-sector m n e b side sector w g);
    sector_ok = λ s.
        ground (arith, w.sector_ok s, enter-sector m n e b side sector w g, str_eq_iff sector s);
  }

  leave-Within :
      (m n : ℕ) (e : Exposure F) (side : Side) (sector : String) (newer older : Book)
      → Within m n e (newer ++ (side, sector) ∷ older)
      → Within m n (release e side sector) (newer ++ older)
  unfolding release
  leave-Within m n e side sector newer older w = record {
    tracked = release-Tracks e older newer side sector w.tracked;
    same_sector = w.same_sector;
    same_total = w.same_total;
    some_sector = w.some_sector;
    total_ok = omega (
      arith,
      w.total_ok,
      length-append newer older,
      length-append newer ((side, sector) ∷ older),
    );
    sector_ok = λ s. ground (
      arith,
      w.sector_ok s,
      held_in-append s newer older,
      held_in-append s newer ((side, sector) ∷ older),
    );
  }

  sync-Within :
      (m n : ℕ) (e : Exposure F) (b : Book) (ps : List (Position F))
      → Permᴰ (entries ps) b
      → Within m n e b
      → Within m n (refresh_from_db e ps) b
  sync-Within m n e b ps h w =
      let now = refresh_from_db-Tracks e ps in
      record {
        tracked = Tracks-any_order (refresh_from_db e ps) (entries ps) b (perm-SameCounts h) now.0;
        same_sector = now.1 ∙ w.same_sector;
        same_total = now.2 ∙ w.same_total;
        some_sector = w.some_sector;
        total_ok = w.total_ok;
        sector_ok = w.sector_ok;
      }

  pub Step-Within :
      (m n : ℕ) {e e' : Exposure F} {b b' : Book}
      → Step e b e' b'
      → Within m n e b
      → Within m n e' b'
  Step-Within m n (enter e b side sector g) w = enter-Within m n e b side sector w g
  Step-Within m n (leave e b c side sector newer older h k) w =
      rw k (leave-Within m n e side sector newer older (rw h at w))
  Step-Within m n (sync e b ps h) w = sync-Within m n e b ps h w

  new_exposure-Within : ⦃fl : Float64 F⦄ → (m n : ℕ) → 0 < m → Within m n (new_exposure m n) []
  unfolding new_exposure
  new_exposure-Within m n h = record {
    tracked = new_exposure-Tracks m n;
    same_sector = refl;
    same_total = refl;
    some_sector = h;
    total_ok = omega arith;
    sector_ok = λ s. omega arith;
  }

  -- From an empty tracker with a positive sector ceiling, let any entries that the gates let through,
  -- exits of positions that are held, and refreshes follow, where each refresh reads from the database
  -- exactly the positions that are open then, in any order. The open positions never exceed the two ceilings, and
  -- the counters stay those of the positions that are open.
  pub Reach-Within :
      ⦃fl : Float64 F⦄
      → (m n : ℕ) → 0 < m
      → {e : Exposure F} {b : Book} → Reach (new_exposure m n) [] e b
      → Within m n e b
  Reach-Within m n h here = new_exposure-Within m n h
  Reach-Within m n h (next r st) = Step-Within m n st (Reach-Within m n h r)

  -- A position that is registered and not yet in the database is forgotten by a refresh: if the
  -- database is below both ceilings, the gates let a second entry into its sector through.
  pub refresh_forgets :
      (e : Exposure F) (ps : List (Position F)) (side : Side) (sector : String)
      → 0 < e.max_sector
      → held_in sector (entries ps) < e.max_sector
      → length (entries ps) < e.max_total
      → let e' = refresh_from_db (register e side sector) ps in
        (entry_gate e' sector ≡ none) × (e'.total ≡ length (entries ps))
  unfolding register
  refresh_forgets e ps side sector h k l =
      let e' = register e side sector in
      let now = refresh_from_db-Tracks e' ps in
      (
        ground (
          arith,
          now.1,
          now.2,
          entry_gate-Tracks (refresh_from_db e' ps) (entries ps) sector now.0,
        ),
        now.0.total,
      )
