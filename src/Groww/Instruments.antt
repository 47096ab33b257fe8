-- ===== src/Groww/Instruments.antt =====
-- src/pkg/groww/instrument.go: the instrument list, over the records that encoding/csv reads. The
-- numbers that strconv makes of a text, 0 for one that is no number, are arguments; the text of an
-- error has no quotation marks.
pub mod Columns
use navier_stocks.Base.{
  ℕ, zero, suc, Bool, true, false, Option, none, some, List, [], ◌∷◌, String, if◌then◌else◌,
}
use navier_stocks.Base.Int.{ℤ}
use navier_stocks.Base.Text.{str_eq, concat}
use navier_stocks.Base.Try.{Try, ok, err}
use navier_stocks.Base.Dict.{Dict, lookup, insert}
use navier_stocks.Groww.Types.{Exchange, Segment}

-- `Instrument`
pub record Instrument (F : Type 0) : Type 0 where
  pub exchange : Exchange
  pub exchange_token : String
  pub trading_symbol : String
  pub groww_symbol : String
  pub name : String
  pub instrument_type : String
  pub segment : Segment
  pub series : String
  pub isin : String
  pub underlying_symbol : String
  pub underlying_exchange_token : String
  pub expiry_date : String
  pub strike_price : ℤ
  pub lot_size : ℤ
  pub tick_size : F
  pub freeze_quantity : ℤ
  pub is_reserved : Bool
  pub buy_allowed : Bool
  pub sell_allowed : Bool

-- The column index: of columns of one name, the last.
unfoldable pub index_columns : ℕ → List String → Dict ℕ → Dict ℕ
unfolding insert
index_columns i [] col = col
index_columns i (name ∷ names) col = index_columns (suc i) names (insert name i col)

-- `row[i]`, or "" out of range
unfoldable pub cell : ℕ → List String → String
cell i [] = ""
cell zero (c ∷ row) = c
cell (suc i) (c ∷ row) = cell i row

abbrev pub cell_at : List String → Option ℕ → String
cell_at row none = ""
cell_at row (some i) = cell i row

-- `rowAt`
unfoldable pub row_at : List String → Dict ℕ → String → String
unfolding lookup cell
row_at row col name = cell_at row (lookup name col)

-- `required`
abbrev pub required : List String
required = "exchange" ∷ "exchange_token" ∷ "trading_symbol" ∷ "instrument_type" ∷ "segment" ∷ []

abbrev pub missing_of : String → Option ℕ → Option String → Option String
missing_of name none rest = some (concat "groww instruments: missing column " name)
missing_of name (some i) rest = rest

-- The first required column that is missing, as an error.
unfoldable pub missing : List String → Dict ℕ → Option String
unfolding lookup
missing [] col = none
missing (name ∷ names) col = missing_of name (lookup name col) (missing names col)

module _ {F : Type 0} where
  -- The instrument of a record, by what it has in each column.
  unfoldable pub instrument : (String → ℤ) → (String → F) → (String → String) → Instrument F
  instrument atoi atof at = record {
    exchange = at "exchange";
    exchange_token = at "exchange_token";
    trading_symbol = at "trading_symbol";
    groww_symbol = at "groww_symbol";
    name = at "name";
    instrument_type = at "instrument_type";
    segment = at "segment";
    series = at "series";
    isin = at "isin";
    underlying_symbol = at "underlying_symbol";
    underlying_exchange_token = at "underlying_exchange_token";
    expiry_date = at "expiry_date";
    strike_price = atoi (at "strike_price");
    lot_size = atoi (at "lot_size");
    tick_size = atof (at "tick_size");
    freeze_quantity = atoi (at "freeze_quantity");
    is_reserved = str_eq (at "is_reserved") "1";
    buy_allowed = str_eq (at "buy_allowed") "1";
    sell_allowed = str_eq (at "sell_allowed") "1";
  }

  abbrev pub onto : Instrument F → Try (List (Instrument F)) → Try (List (Instrument F))
  onto inst (err message) = err message
  onto inst (ok rest) = ok (inst ∷ rest)

  -- The loop over the records; the first that does not read ends it.
  unfoldable pub parse_rows :
      (String → ℤ) → (String → F) → Dict ℕ → List (Try (List String)) → Try (List (Instrument F))
  unfolding row_at instrument
  parse_rows atoi atof col [] = ok []
  parse_rows atoi atof col (err message ∷ rows) = err (concat "groww instruments row: " message)
  parse_rows atoi atof col (ok row ∷ rows) =
      onto (instrument atoi atof (row_at row col)) (parse_rows atoi atof col rows)

  abbrev pub checked_rows :
      (String → ℤ)
      → (String → F)
      → Dict ℕ
      → Option String
      → List (Try (List String))
      → Try (List (Instrument F))
  checked_rows atoi atof col (some message) rows = err message
  checked_rows atoi atof col none rows = parse_rows atoi atof col rows

  -- `ParseInstruments`, of the header and the records
  unfoldable pub parse_instruments :
      (String → ℤ)
      → (String → F)
      → Try (List String)
      → List (Try (List String))
      → Try (List (Instrument F))
  unfolding index_columns missing parse_rows
  parse_instruments atoi atof (err message) rows = err (concat "groww instruments header: " message)
  parse_instruments atoi atof (ok header) rows =
      let col = index_columns 0 header [] in checked_rows atoi atof col (missing required col) rows
