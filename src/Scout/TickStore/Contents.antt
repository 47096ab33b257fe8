-- ===== src/Scout/TickStore/Contents.antt =====
-- src/analysts/quantitative/tickstore.go: the ring buffer against the list of the ticks that it
-- retains, oldest first.
use mathlib.Core.List.{append_assoc, append-nil}
use navier_stocks.Base.{
  ℕ, suc, ◌-◌, ◌<◌, ◌≡◌, ap, ◌∙◌, sym, List, [], ◌∷◌, ◌++◌, arith, length, set, take, drop,
  length-append, length-drop, length-take, length-set, length-replicate, if◌then◌else◌,
}
use navier_stocks.Base.Int.{ℤ, pos, pos_part, ltb_ℤ}
use navier_stocks.Float.{Float64}
use navier_stocks.Scout.TickStore.{Tick, TickStore, zero_tick, count, append, new_tick_store}
use navier_stocks.Scout.TickStore.Slices.{
  take-suc-set, drop-suc-set, drop_cons, take_all, drop_all, keep_last, keep_last-append, drop_none,
}

module _ {F : Type 0} where
  -- The write position is a slot of the array.
  pub record IsRing (ts : TickStore F) : Type 0 where
    pub storage : length ts.buf ≡ ts.size
    pub slot : ts.write < ts.size

  -- What the store retains.
  abbrev pub contents : TickStore F → List (Tick F)
  contents ts =
      if ts.full then drop ts.write ts.buf ++ take ts.write ts.buf else take ts.write ts.buf

  pub append-IsRing : (ts : TickStore F) (t : Tick F) → IsRing ts → IsRing (append ts t)
  unfolding append
  append-IsRing ts t v = ground (arith, length-set ts.buf ts.write t)

  pub size-append : (ts : TickStore F) (t : Tick F) → (append ts t).size ≡ ts.size
  unfolding append
  size-append ts t = ground arith

  -- `Len` is the number of ticks retained, never above `Cap`.
  pub count-eq-length : (ts : TickStore F) → IsRing ts → count ts ≡ length (contents ts)
  unfolding count
  count-eq-length ts v = ground (
    arith,
    length-append (drop ts.write ts.buf) (take ts.write ts.buf),
    length-drop ts.write ts.buf,
    length-take ts.write ts.buf,
  )

  module _ (buf : List (Tick F)) (write size : ℕ) (t : Tick F) (h : length buf ≡ size)
      (k : write < size) where
    abbrev written : List (Tick F)
    written = set buf write t

    written_part : take (suc write) written ≡ take write buf ++ t ∷ []
    written_part = take-suc-set buf write t (rw h k)

    written_all : suc write ≡ size → written ≡ take write buf ++ t ∷ []
    written_all e =
        sym (take_all written (suc write) (omega (arith, length-set buf write t))) ∙ written_part

    keep_partial : keep_last size (take write buf ++ t ∷ []) ≡ take write buf ++ t ∷ []
    keep_partial =
        drop_none _ _
          (omega (arith, length-append (take write buf) (t ∷ []), length-take write buf))

    keep_wrapped :
        keep_last size ((drop write buf ++ take write buf) ++ t ∷ [])
        ≡ drop (suc write) buf ++ (take write buf ++ t ∷ [])
    keep_wrapped =
        ap (λ n. drop n ((drop write buf ++ take write buf) ++ t ∷ [])) one_over
        ∙ rw (drop_cons buf write t (rw h k))
            (append_assoc (drop (suc write) buf) (take write buf) (t ∷ []))
      where
        one_over : length ((drop write buf ++ take write buf) ++ t ∷ []) - size ≡ 1
        one_over = omega (
          arith,
          length-append (drop write buf ++ take write buf) (t ∷ []),
          length-append (drop write buf) (take write buf),
          length-drop write buf,
          length-take write buf,
        )

  -- `Append` adds the tick at the end, and evicts the oldest one just if the store was full.
  pub contents-append :
      (ts : TickStore F) (t : Tick F)
      → IsRing ts
      → contents (append ts t) ≡ keep_last ts.size (contents ts ++ t ∷ [])
  unfolding append
  contents-append ts t v = ground (
    arith,
    v.storage,
    written_part ts.buf ts.write ts.size t v.storage v.slot,
    written_all ts.buf ts.write ts.size t v.storage v.slot,
    keep_partial ts.buf ts.write ts.size t v.storage v.slot,
    keep_wrapped ts.buf ts.write ts.size t v.storage v.slot,
    drop-suc-set ts.buf ts.write t,
    drop_all ts.buf (suc ts.write),
    append-nil (set ts.buf ts.write t),
  )

  -- The ticks of a session, appended one after another.
  abbrev pub append_all : TickStore F → List (Tick F) → TickStore F
  append_all ts [] = ts
  append_all ts (t ∷ ticks) = append_all (append ts t) ticks

  contents-append_all :
      (ticks xs : List (Tick F)) (ts : TickStore F)
      → IsRing ts
      → contents ts ≡ keep_last ts.size xs
      → (contents (append_all ts ticks) ≡ keep_last ts.size (xs ++ ticks))
        × IsRing (append_all ts ticks)
  contents-append_all [] xs ts v e = (e ∙ ap (keep_last ts.size) (sym (append-nil xs)), v)
  contents-append_all (t ∷ ticks) xs ts v e =
      let r = contents-append_all ticks (xs ++ t ∷ []) (append ts t) (append-IsRing ts t v) (
        contents-append ts t v
        ∙ ap (λ zs. keep_last ts.size (zs ++ t ∷ [])) e
        ∙ keep_last-append ts.size xs t (omega (arith, v.slot))
        ∙ ap (λ n. keep_last n (xs ++ t ∷ [])) (sym (size-append ts t))) in
      (
        r.0
            ∙ ap (λ n. keep_last n ((xs ++ t ∷ []) ++ ticks)) (size-append ts t)
            ∙ ap (keep_last ts.size) (append_assoc xs (t ∷ []) ticks),
        r.1,
      )

-- The capacity that `NewTickStore` settles on.
abbrev pub capacity : ℤ → ℕ
capacity n = if ltb_ℤ n (pos 1) then 1 else pos_part n

module _ {F : Type 0} ⦃fl : Float64 F⦄ where
  new_tick_store-IsRing : (n : ℤ) → IsRing {F = F} (new_tick_store n)
  unfolding new_tick_store
  new_tick_store-IsRing n = record {
    storage = length-replicate (capacity n) zero_tick;
    slot = ground arith;
  }

  -- A new store that has been given some ticks retains exactly the last of them, as many as its
  -- capacity, oldest first, and its array keeps its length with the write position inside it.
  pub session_contents :
      (n : ℤ) (ticks : List (Tick F))
      → (contents (append_all (new_tick_store n) ticks) ≡ keep_last (capacity n) ticks)
        × IsRing (append_all (new_tick_store n) ticks)
  unfolding new_tick_store
  session_contents n ticks =
      contents-append_all ticks [] (new_tick_store n) (new_tick_store-IsRing n)
        (sym (drop_none [] (0 - capacity n) (omega arith)))
