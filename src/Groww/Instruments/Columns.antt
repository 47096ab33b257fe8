-- ===== src/Groww/Instruments/Columns.antt =====
-- src/pkg/groww/instrument.go: the order of the columns does not matter.
use navier_stocks.Base.{
  ℕ, suc, ◌+◌, ◌≡◌, refl, ap, ◌∙◌, inl, inr, Bool, true, false, none, some, List, [], ◌∷◌, String,
  arith, map, if◌then◌else◌, Bool-cases, All,
}
use navier_stocks.Base.Int.{ℤ}
use navier_stocks.Base.Text.{str_eq, str_eq_iff}
use navier_stocks.Base.Try.{Try, ok}
use navier_stocks.Base.Dict.{Dict, lookup, insert, lookup-insert}
use navier_stocks.Groww.Instruments.{
  Instrument, index_columns, cell, row_at, required, missing, instrument, parse_rows,
  parse_instruments,
}

unfoldable pub has_column : List String → String → Bool
has_column [] name = false
has_column (h ∷ header) name = if str_eq h name then true else has_column header name

-- A record for a header: in each column the text of an instrument under the column's name.
abbrev pub written : List String → (String → String) → List String
written header texts = map texts header

-- A text of an instrument, if its column is there.
abbrev pub text_in : List String → (String → String) → String → String
text_in header texts name = if has_column header name then texts name else ""

-- A name that the header has not is looked up as before.
index_columns-absent :
    (i : ℕ) (header : List String) (col : Dict ℕ) (name : String)
    → has_column header name ≡ false
    → lookup name (index_columns i header col) ≡ lookup name col
unfolding index_columns has_column
index_columns-absent i [] col name h = refl
index_columns-absent i (c ∷ header) col name h =
    let other : str_eq c name ≡ false = ground (arith, h) in
    let rest : has_column header name ≡ false = ground (arith, h) in
    index_columns-absent (suc i) header (insert c i col) name rest
    ∙ lookup-insert c name i col
    ∙ simp other refl

-- Where the index finds a name of the header stands its text.
index_columns-written :
    (texts : String → String) (i : ℕ) (header : List String) (col : Dict ℕ) (name : String)
    → has_column header name ≡ true
    → (j : ℕ) × (lookup name (index_columns i header col) ≡ some (i + j))
      × (cell j (written header texts) ≡ texts name)
unfolding index_columns has_column cell
index_columns-written texts i [] col name h = absurd (ground (arith, h))
index_columns-written texts i (c ∷ header) col name h = elim (Bool-cases (has_column header name)) [
  | inl later ↦
      let (j, there, same) =
        index_columns-written texts (suc i) header (insert c i col) name later in
      let shift : suc i + j ≡ i + suc j = omega arith in (suc j, there ∙ ap some shift, same)
  | inr last ↦
      let here : str_eq c name ≡ true = ground (arith, h, last) in
      let shift : i ≡ i + 0 = omega arith in
      (
        0,
        index_columns-absent (suc i) header (insert c i col) name last
            ∙ lookup-insert c name i col
            ∙ simp here (ap some shift),
        ap texts ((str_eq_iff c name).0 here),
      )
]

row_at-written :
    (header : List String) (texts : String → String) (name : String)
    → row_at (written header texts) (index_columns 0 header []) name ≡ text_in header texts name
unfolding row_at lookup
row_at-written header texts name = elim (Bool-cases (has_column header name)) [
  | inl there ↦
      let (j, found, same) = index_columns-written texts 0 header [] name there in
      let start : 0 + j ≡ j = omega arith in simp (found, there, start) same
  | inr absent ↦ simp (index_columns-absent 0 header [] name absent, absent) refl
]

-- A header that has every required column misses none.
missing-none :
    (header names : List String)
    → All (λ name. has_column header name ≡ true) names
    → missing names (index_columns 0 header []) ≡ none
unfolding missing
missing-none header [] all = refl
missing-none header (name ∷ names) all =
    let (j, found, same) = index_columns-written (λ t. t) 0 header [] name all.0 in
    simp found (missing-none header names all.1)

abbrev pub records : List String → List (String → String) → List (Try (List String))
records header insts = map (λ texts. ok (written header texts)) insts

module _ {F : Type 0} (atoi : String → ℤ) (atof : String → F) where
  -- The instrument that has the texts of the header's columns.
  abbrev pub read_instrument : List String → (String → String) → Instrument F
  read_instrument header texts = instrument atoi atof (text_in header texts)

  parse_rows-records :
      (header : List String) (insts : List (String → String))
      → parse_rows atoi atof (index_columns 0 header []) (records header insts)
        ≡ ok (map (read_instrument header) insts)
  unfolding parse_rows
  parse_rows-records header [] = refl
  parse_rows-records header (texts ∷ insts) = rw (parse_rows-records header insts) (
      ap (λ at. ok (instrument atoi atof at ∷ map (read_instrument header) insts))
        (λ i name. row_at-written header texts name i))

  -- A list that is written under a header with all required columns, in whatever order and with whatever
  -- others, is read back: each instrument in its place, with its text in each column that is there and
  -- the empty text for the others.
  pub parse_instruments-records :
      (header : List String) (insts : List (String → String))
      → All (λ name. has_column header name ≡ true) required
      → parse_instruments atoi atof (ok header) (records header insts)
        ≡ ok (map (read_instrument header) insts)
  unfolding parse_instruments
  parse_instruments-records header insts all =
      rw (missing-none header required all) (parse_rows-records header insts)
