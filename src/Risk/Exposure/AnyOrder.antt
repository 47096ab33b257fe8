-- ===== src/Risk/Exposure/AnyOrder.antt =====
-- src/analysts/riskmanager/exposure.go: the counters do not depend on the order of the positions.
use mathlib.Core.List.{Permᴰ}
use navier_stocks.Base.{suc, ◌≡◌, refl, sym, ap, ◌∙◌, ◌∷◌, String, arith, length}
use navier_stocks.Models.{Side}
use navier_stocks.Risk.Exposure.{Exposure}
use navier_stocks.Risk.Exposure.Tracking.{Book, Tracks, longs_in, shorts_in, held_in}

-- Books in which as many positions are held, of each side and in each sector.
pub record SameCounts (b c : Book) : Type 0 where
  pub total : length b ≡ length c
  pub longs : longs_in b ≡ longs_in c
  pub shorts : shorts_in b ≡ shorts_in c
  pub sectors : (s : String) → held_in s b ≡ held_in s c

cons-SameCounts :
    (side : Side) (sector : String) (b c : Book)
    → SameCounts b c
    → SameCounts ((side, sector) ∷ b) ((side, sector) ∷ c)
cons-SameCounts side sector b c h = record {
  total = ap suc h.total;
  longs = ground (arith, h.longs);
  shorts = ground (arith, h.shorts);
  sectors = λ s. ground (arith, h.sectors s);
}

swap-SameCounts :
    (side side' : Side) (sector sector' : String) (b : Book)
    → SameCounts ((side, sector) ∷ (side', sector') ∷ b) ((side', sector') ∷ (side, sector) ∷ b)
swap-SameCounts side side' sector sector' b = record {
  total = refl;
  longs = ground arith;
  shorts = ground arith;
  sectors = λ s. ground arith;
}

-- The same positions in another order.
pub perm-SameCounts : {b c : Book} → Permᴰ b c → SameCounts b c
perm-SameCounts (Permᴰ.nil) = record {
  total = refl;
  longs = refl;
  shorts = refl;
  sectors = λ s. refl;
}
perm-SameCounts (Permᴰ.cons {a = (side, sector)} {l₁ = b} {l₂ = c} e π) =
    rw (sym e) (cons-SameCounts side sector b c (perm-SameCounts π))
perm-SameCounts (Permᴰ.swap {a = (side, sector)} {b = (side', sector')} {l = b} d e) =
    rw (sym d, sym e) (swap-SameCounts side side' sector sector' b)
perm-SameCounts (Permᴰ.trans π ρ) =
    let one = perm-SameCounts π in
    let two = perm-SameCounts ρ in
    record {
      total = one.total ∙ two.total;
      longs = one.longs ∙ two.longs;
      shorts = one.shorts ∙ two.shorts;
      sectors = λ s. one.sectors s ∙ two.sectors s;
    }

pub Tracks-any_order :
    {F : Type 0} (e : Exposure F) (b c : Book) → SameCounts b c → Tracks e b → Tracks e c
Tracks-any_order e b c h t = record {
  total = t.total ∙ h.total;
  longs = t.longs ∙ h.longs;
  shorts = t.shorts ∙ h.shorts;
  sectors = λ s. t.sectors s ∙ h.sectors s;
}
