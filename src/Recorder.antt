-- ===== src/Recorder.antt =====
-- src/analysts/recorder: the archive of price ticks, a file for each day. A file is its bytes, and is
-- known by its day; what json.Marshal makes of a tick, the days that the clock reads and the errors of
-- the files are arguments; the texts of errors leave out the paths.
pub mod Archive
pub mod Jam
pub mod Turns
use navier_stocks.Base.{
  Bool, true, false, not, Option, none, some, List, [], ◌∷◌, ◌++◌, String, if◌then◌else◌,
}
use navier_stocks.Base.Scan.{Bytes, newline}
use navier_stocks.Base.Text.{str_eq, concat, is_empty}
use navier_stocks.Base.Dict.{Dict, lookup, insert, lookup_or}
use navier_stocks.Base.Try.{Try, ok, err}
use navier_stocks.Models.{PriceTick}

-- `os.File`, open for appending
pub record File : Type 0 where
  pub name : String
  pub is_open : Bool

-- `TickStore`, with the files of its directory
pub record TickStore : Type 0 where
  pub file : Option File
  pub day : String
  pub files : Dict Bytes

-- What one `Append` meets. A write that fails says which bytes it appended to the file before it did.
pub record Faults : Type 0 where
  pub on_open : Option String
  pub on_close : Option String
  pub on_write : Option (String × Bytes)

-- `envTicksDir`, of the variable's value
unfoldable pub env_ticks_dir : String → String
env_ticks_dir dir = if is_empty dir then "data/ticks" else dir

-- `(*os.File).Close` a second time is an error.
abbrev pub close_error : File → Option String → Option String
close_error f on_close = if f.is_open then on_close else some "file already closed"

abbrev pub is_stale : String → Option File → String → Bool
is_stale day none current = true
is_stale day (some f) current = not (str_eq day current)

abbrev pub bytes_of : String → TickStore → Bytes
bytes_of day s = lookup_or day s.files []

-- `OpenTickStore`, over the files that are there
unfoldable pub open_tick_store : Dict Bytes → TickStore
open_tick_store files = record { file = none; day = ""; files = files }

-- `os.OpenFile` makes a file that is missing.
abbrev pub create : String → TickStore → TickStore
create day s = record s { files = insert day (bytes_of day s) s.files }

abbrev pub switch_to : String → TickStore → TickStore
switch_to day s = record s { file = some (record { name = day; is_open = true }); day = day }

abbrev pub after_close : String → File → Option String → TickStore → Option String × TickStore
after_close day f (some message) s = (
  some (concat "recorder: close: " message),
  record s { file = some (record f { is_open = false }) },
)
after_close day f none s = (none, switch_to day s)

abbrev pub close_old : Option String → String → Option File → TickStore → Option String × TickStore
close_old on_close day none s = (none, switch_to day s)
close_old on_close day (some f) s = after_close day f (close_error f on_close) s

abbrev pub after_open :
    Option String → Option String → String → TickStore → Option String × TickStore
after_open (some message) on_close day s = (some (concat "recorder: open: " message), s)
after_open none on_close day s = close_old on_close day s.file (create day s)

-- `rotateLocked`
unfoldable pub rotate : Faults → String → TickStore → Option String × TickStore
unfolding lookup_or insert
rotate faults day s = after_open faults.on_open faults.on_close day s

-- `O_APPEND`: the bytes go behind whatever the file ends in, a line or the beginning of one.
abbrev pub append_to : String → Bytes → TickStore → TickStore
append_to name bytes s = record s { files = insert name (bytes_of name s ++ bytes) s.files }

abbrev pub write_to : Option (String × Bytes) → Bytes → File → TickStore → Option String × TickStore
write_to (some (message, part)) line f s =
    (some (concat "recorder: append tick: " message), append_to f.name part s)
write_to none line f s = (none, append_to f.name line s)

abbrev pub write_line :
    Option (String × Bytes) → Bytes → Option File → TickStore → Option String × TickStore
write_line on_write line none s = (some "recorder: append tick: invalid argument", s)
write_line on_write line (some f) s =
    if f.is_open
    then write_to on_write line f s
    else (some "recorder: append tick: file already closed", s)

abbrev pub then_write :
    Option (String × Bytes) → Bytes → Option String × TickStore → Option String × TickStore
then_write on_write line (some message, s) = (some message, s)
then_write on_write line (none, s) = write_line on_write line s.file s

abbrev pub after_marshal : Try Bytes → Faults → String → TickStore → Option String × TickStore
after_marshal (err message) faults day s = (some (concat "recorder: marshal tick: " message), s)
after_marshal (ok line) faults day s =
    then_write faults.on_write (line ++ newline ∷ [])
      (if is_stale day s.file s.day then rotate faults day s else (none, s))

abbrev pub close_file : Option String → Option File → TickStore → Option String × TickStore
close_file on_close none s = (none, s)
close_file on_close (some f) s = (close_error f on_close, record s { file = none })

-- `(*TickStore).Close`
unfoldable pub close : Option String → TickStore → Option String × TickStore
close on_close s = close_file on_close s.file s

-- One message: what it meets, the day, and the tick it decodes to.
pub record Message (F : Type 0) : Type 0 where
  pub faults : Faults
  pub day : String
  pub tick : Option (PriceTick F)

module _ {F : Type 0} (marshal : PriceTick F → Try Bytes) where
  -- `(*TickStore).Append`, on the day that the clock reads
  unfoldable pub append : Faults → String → PriceTick F → TickStore → Option String × TickStore
  unfolding rotate
  append faults day tick s = after_marshal (marshal tick) faults day s

  -- `handlePrice`, of what the message decodes to
  unfoldable pub handle_price : Faults → String → Option (PriceTick F) → TickStore → TickStore
  unfolding append
  handle_price faults day none s = s
  handle_price faults day (some tick) s = (append faults day tick s).1

  -- A recorder over its messages.
  unfoldable pub record_all : List (Message F) → TickStore → TickStore
  unfolding handle_price
  record_all [] s = s
  record_all (m ∷ ms) s = record_all ms (handle_price m.faults m.day m.tick s)
