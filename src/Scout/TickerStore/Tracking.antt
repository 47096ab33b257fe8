-- ===== src/Scout/TickerStore/Tracking.antt =====
-- src/analysts/quantitative/tickstore.go: the bound on the tracked symbols, and that the symbols do
-- not meet.
use navier_stocks.Base.{
  ◌≤◌, ◌≡◌, ◌≢◌, refl, inl, inr, true, false, Option, none, some, String, arith, length,
  Option-cases, Bool-cases, leb,
}
use navier_stocks.Base.Text.{str_eq_iff}
use navier_stocks.Base.Dict.{lookup, lookup-insert, lookup-insert_self, length-insert}
use navier_stocks.Float.{Float64}
use navier_stocks.Scout.TickStore.{TickStore, new_tick_store}
use navier_stocks.Scout.TickerStore.{TickerStore, get, len, put, store}

module _ {F : Type 0} ⦃fl : Float64 F⦄ where
  -- What one `Store` of a symbol makes of the map.
  pub record Stores (ts : TickerStore F) (symbol : String) (s : Option (TickStore F))
      (ts' : TickerStore F) : Type 0 where
    pub bounded : len ts' ≤ ts'.max
    pub same_max : ts'.max ≡ ts.max
    pub result : get ts' symbol ≡ s
    pub others : (j : String) → symbol ≢ j → get ts' j ≡ get ts j
    pub known : (old : TickStore F) → get ts symbol ≡ some old → s ≡ some old
    pub full : s ≡ none → (ts' ≡ ts) × (len ts ≡ ts.max)

  store-known :
      (ts : TickerStore F) (symbol : String) (s : TickStore F)
      → lookup symbol ts.stores ≡ some s
      → store ts symbol ≡ (some s, ts)
  unfolding store
  store-known ts symbol s e = ground arith

  store-full :
      (ts : TickerStore F) (symbol : String)
      → lookup symbol ts.stores ≡ none
      → leb ts.max (length ts.stores) ≡ true
      → store ts symbol ≡ (none, ts)
  unfolding store
  store-full ts symbol e f = ground arith

  store-fresh :
      (ts : TickerStore F) (symbol : String)
      → lookup symbol ts.stores ≡ none
      → leb ts.max (length ts.stores) ≡ false
      → store ts symbol
        ≡ (some (new_tick_store ts.buf_cap), put ts symbol (new_tick_store ts.buf_cap))
  unfolding store put
  store-fresh ts symbol e f = ground arith

  -- If at most `max` symbols are tracked, then also after a `Store`. The call returns what `Get` finds
  -- afterwards; it changes no other symbol; a symbol that is tracked keeps its buffer; and `nil`
  -- is returned only by a map that is full, which it leaves as it is.
  pub store-Stores :
      (ts : TickerStore F) (symbol : String)
      → len ts ≤ ts.max
      → Stores ts symbol (store ts symbol).0 (store ts symbol).1
  unfolding get len put
  store-Stores ts symbol h = elim (Option-cases (lookup symbol ts.stores)) [
    | inl new ↦ elim (Bool-cases (leb ts.max (length ts.stores))) [
      | inl full ↦ rw (store-full ts symbol new full) (record {
        bounded = h;
        same_max = refl;
        result = new;
        others = λ j ne. refl;
        known = λ old e. ground (arith, new, e);
        full = λ e. (refl, ground arith);
      })
      | inr room ↦
          let fresh = new_tick_store ts.buf_cap in
          let more = length-insert symbol fresh ts.stores in
          rw (store-fresh ts symbol new room) (record {
            bounded = ground (arith, more);
            same_max = refl;
            result = lookup-insert_self symbol fresh ts.stores;
            others =
                λ j ne. ground (arith, lookup-insert symbol j fresh ts.stores, str_eq_iff symbol j);
            known = λ old e. ground arith;
            full = λ e. ground arith;
          })
    ]
    | inr (s, e) ↦ rw (store-known ts symbol s e) (record {
      bounded = h;
      same_max = refl;
      result = e;
      others = λ j ne. refl;
      known = λ old e'. ground (arith, e, e');
      full = λ e'. ground arith;
    })
  ]
