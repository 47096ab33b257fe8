-- ===== src/Scout/TickStore/Queries.antt =====
-- src/analysts/quantitative/tickstore.go: what the queries and `UpdateLatestVolume` make of the ticks
-- that the store retains.
use mathlib.Core.List.{append-nil}
use native.Mathlib.Nat.{mod-eq_of_lt, mod-eq-sub-mod}
use navier_stocks.Base.{
  ℕ, zero, suc, ◌+◌, ◌-◌, ◌%◌, ◌<◌, ◌≡◌, refl, ap, ◌∙◌, sym, List, [], ◌∷◌, ◌++◌, arith, length,
  get_or, take, drop, length-drop, length-take, ltb, if◌then◌else◌, Bool-cases, inl, inr,
}
use navier_stocks.Base.Int.{ℤ, pos_part}
use navier_stocks.Float.{Float64}
use navier_stocks.Scout.TickStore.{
  Tick, TickStore, zero_tick, count, new_tick_store, at, ticks_from, recent, prices_of, volumes_of,
  recent_prices, recent_volumes, with_volume, update_latest_volume,
}
use navier_stocks.Scout.TickStore.Slices.{
  get_or-drop, get_or-take, get_or-append, drop_cons, drop_all, keep_last,
}
use navier_stocks.Scout.TickStore.Contents.{
  IsRing, contents, count-eq-length, append_all, capacity, session_contents,
}

sub_self : (n : ℕ) → n - n ≡ 0
sub_self n = omega arith

one_less : (n : ℕ) → suc (suc n) - 1 ≡ suc (suc n - 1)
one_less n = omega arith

wrapped_index :
    (w i n : ℕ) → w < n → i < n → (w + i) % n ≡ (if ltb (w + i) n then w + i else w + i - n)
wrapped_index w i n h k = elim (Bool-cases (ltb (w + i) n)) [
  | inl e ↦ rw e (mod-eq_of_lt (ground arith))
  | inr e ↦ rw e (
      mod-eq-sub-mod {n = w + i} {m = n} (ground arith)
      ∙ mod-eq_of_lt {n = w + i - n} {m = n} (ground arith))
]

module _ {F : Type 0} ⦃fl : Float64 F⦄ where
  -- `at` reads the retained ticks in their order, inside the array.
  pub at-eq-get_or :
      (ts : TickStore F) (i : ℕ)
      → IsRing ts
      → i < count ts
      → at ts i ≡ get_or (contents ts) i zero_tick
  unfolding at count
  at-eq-get_or ts i v h = ground (
    arith,
    v.storage,
    v.slot,
    wrapped_index ts.write i ts.size,
    get_or-append (drop ts.write ts.buf) (take ts.write ts.buf) i zero_tick,
    length-drop ts.write ts.buf,
    get_or-drop ts.buf ts.write i zero_tick,
    get_or-take ts.buf ts.write (i - (ts.size - ts.write)) zero_tick,
    get_or-take ts.buf ts.write i zero_tick,
  )

  pub ticks_from-drop :
      (n from : ℕ) (ts : TickStore F)
      → IsRing ts
      → from + n ≡ count ts
      → ticks_from ts from n ≡ drop from (contents ts)
  unfolding ticks_from
  ticks_from-drop zero from ts v e =
      sym (drop_all (contents ts) from (omega (arith, count-eq-length ts v)))
  ticks_from-drop (suc n) from ts v e =
      ap (◌∷◌ (at ts from)) (ticks_from-drop n (suc from) ts v (omega arith))
      ∙ ap (λ t. t ∷ drop (suc from) (contents ts)) (at-eq-get_or ts from v (omega (arith, e)))
      ∙ sym (drop_cons (contents ts) from zero_tick (omega (arith, e, count-eq-length ts v)))

  pub recent-keep_last :
      (ts : TickStore F) (n : ℤ) → IsRing ts → recent ts n ≡ keep_last (pos_part n) (contents ts)
  unfolding recent
  recent-keep_last ts n v = ground (
    arith,
    count-eq-length ts v,
    ticks_from-drop (count ts) (count ts - count ts) ts v,
    ticks_from-drop (pos_part n) (count ts - pos_part n) ts v,
    drop_all (contents ts) (length (contents ts) - pos_part n),
  )

  -- In a session, `RecentPrices` and `RecentVolumes` answer with the last ticks of those that the
  -- store retains, oldest first: as many as asked for, all of them if there are fewer, and none for a
  -- number that is not positive.
  pub session_recent :
      (cap n : ℤ) (ticks : List (Tick F))
      → let ts = append_all (new_tick_store cap) ticks in
        let last = keep_last (pos_part n) (keep_last (capacity cap) ticks) in
        (recent_prices ts n ≡ prices_of last) × (recent_volumes ts n ≡ volumes_of last)
  unfolding recent_prices recent_volumes
  session_recent cap n ticks =
      let r = session_contents cap ticks in
      let e =
        recent-keep_last (append_all (new_tick_store cap) ticks) n r.1
        ∙ ap (keep_last (pos_part n)) r.0 in
      (ap prices_of e, ap volumes_of e)

module _ {F : Type 0} where
  abbrev pub with_last_volume : List (Tick F) → ℤ → List (Tick F)
  with_last_volume [] v = []
  with_last_volume (t ∷ []) v = record t { volume = v } ∷ []
  with_last_volume (t ∷ u ∷ ticks) v = t ∷ with_last_volume (u ∷ ticks) v

  take-with_volume :
      (ticks : List (Tick F)) (i : ℕ) (v : ℤ)
      → i < length ticks
      → take (suc i) (with_volume ticks i v) ≡ with_last_volume (take (suc i) ticks) v
  take-with_volume [] i v h = elim h [ ]
  take-with_volume (t ∷ ticks) zero v h = refl
  take-with_volume (t ∷ []) (suc i) v h = absurd (omega arith)
  take-with_volume (t ∷ u ∷ ticks) (suc i) v h =
      ap (◌∷◌ t) (take-with_volume (u ∷ ticks) i v (omega arith))

  drop-with_volume :
      (ticks : List (Tick F)) (i : ℕ) (v : ℤ)
      → drop (suc i) (with_volume ticks i v) ≡ drop (suc i) ticks
  drop-with_volume [] i v = refl
  drop-with_volume (t ∷ ticks) zero v = refl
  drop-with_volume (t ∷ ticks) (suc i) v = drop-with_volume ticks i v

  with_last_volume-append :
      (xs ys : List (Tick F)) (v : ℤ)
      → 0 < length ys
      → with_last_volume (xs ++ ys) v ≡ xs ++ with_last_volume ys v
  with_last_volume-append [] ys v h = refl
  with_last_volume-append (x ∷ []) [] v h = elim h [ ]
  with_last_volume-append (x ∷ []) (y ∷ ys) v h = refl
  with_last_volume-append (x ∷ x' ∷ xs) ys v h =
      ap (◌∷◌ x) (with_last_volume-append (x' ∷ xs) ys v h)

  length-with_volume :
      (ticks : List (Tick F)) (i : ℕ) (v : ℤ) → length (with_volume ticks i v) ≡ length ticks
  length-with_volume [] i v = refl
  length-with_volume (t ∷ ticks) zero v = refl
  length-with_volume (t ∷ ticks) (suc i) v = ap suc (length-with_volume ticks i v)

  -- The whole array, when its last slot was written last.
  with_volume_end :
      (ticks : List (Tick F)) (v : ℤ)
      → with_volume ticks (length ticks - 1) v ≡ with_last_volume ticks v
  with_volume_end [] v = refl
  with_volume_end (t ∷ []) v = ap (λ i. with_volume (t ∷ []) i v) (sub_self 1)
  with_volume_end (t ∷ u ∷ ticks) v =
      ap (λ i. with_volume (t ∷ u ∷ ticks) i v) (one_less (length ticks))
      ∙ ap (◌∷◌ t) (with_volume_end (u ∷ ticks) v)

  updated_retained :
      (buf : List (Tick F)) (w : ℕ) (v : ℤ)
      → w < length buf
      → (take (suc w) (with_volume buf w v) ≡ with_last_volume (take (suc w) buf) v)
        × (drop (suc w) (with_volume buf w v) ++ take (suc w) (with_volume buf w v)
            ≡ with_last_volume (drop (suc w) buf ++ take (suc w) buf) v)
  updated_retained buf w v h = (
    take-with_volume buf w v h,
    rw (drop-with_volume buf w v, take-with_volume buf w v h)
        (sym (
          with_last_volume-append (drop (suc w) buf) (take (suc w) buf) v
            (omega (arith, length-take (suc w) buf)))),
  )

  -- In a store whose write position is inside its array, `UpdateLatestVolume` replaces the volume of the newest tick that is retained, and nothing else;
  -- on an empty store it does nothing.
  pub contents-update_latest_volume :
      (ts : TickStore F) (v : ℤ)
      → IsRing ts
      → contents (update_latest_volume ts v) ≡ with_last_volume (contents ts) v
  unfolding update_latest_volume count
  contents-update_latest_volume ts v r = at_write ts.write refl
    where
      at_write :
          (w : ℕ)
          → ts.write ≡ w
          → contents (update_latest_volume ts v) ≡ with_last_volume (contents ts) v
      at_write zero e = ground (
        arith,
        e,
        r.storage,
        r.slot,
        with_volume_end ts.buf v,
        append-nil (with_volume ts.buf (ts.size - 1) v),
        append-nil ts.buf,
      )
      at_write (suc w) e = ground (arith, e, r.storage, r.slot, updated_retained ts.buf w v)
