-- ===== src/Recorder/Jam.antt =====
-- src/analysts/recorder/store.go: a file that cannot be closed.
use mathlib.Core.Path.{subst}
use navier_stocks.Base.{
  ◌≡◌, refl, sym, ap, ◌∙◌, inl, inr, true, false, not, Option, none, some, List, [], ◌∷◌, ◌++◌,
  String, if◌then◌else◌, Bool-cases,
}
use navier_stocks.Base.Text.{str_eq}
use navier_stocks.Base.Scan.{Bytes, newline}
use navier_stocks.Base.Try.{Try, ok, err}
use navier_stocks.Models.{PriceTick}
use navier_stocks.Recorder.{
  File, TickStore, Faults, bytes_of, create, rotate, is_stale, handle_price, Message, record_all,
  after_open, close_old, then_write, after_marshal, append,
}
use navier_stocks.Recorder.Turns.{bytes_of-create}

-- The messages come on other days than `day`.
abbrev pub IsAfter : {F : Type 0} → String → List (Message F) → Type 0
IsAfter day [] = Unit {0}
IsAfter day (m ∷ ms) = (str_eq m.day day ≡ false) × IsAfter day ms

-- The file of the current day is closed, and still the store's.
record IsJammed (s : TickStore) (day : String) : Type 0 where
  name : String
  closed : s.file ≡ some (record { name = name; is_open = false })
  current : s.day ≡ day

-- A store that stays jammed, with the bytes that it had, and an error.
record StaysJammed (day : String) (s : TickStore) (r : Option String × TickStore) : Type 0 where
  message : String
  failed : r.0 ≡ some message
  jammed : IsJammed r.1 day
  kept : (j : String) → bytes_of j r.1 ≡ bytes_of j s

rotate-StaysJammed :
    (on_open on_close : Option String) (day today : String) (s : TickStore)
    → IsJammed s day
    → StaysJammed day s (after_open on_open on_close today s)
rotate-StaysJammed (some m) on_close day today s jam = record {
  message = _;
  failed = refl;
  jammed = jam;
  kept = λ j. refl;
}
rotate-StaysJammed none on_close day today s jam = simp (jam.closed) (record {
  message = _;
  failed = refl;
  jammed = record { name = jam.name; closed = refl; current = jam.current };
  kept = λ j. bytes_of-create today j s;
})

-- A close that fails jams the store.
close_old-StaysJammed :
    (message : String) (today : String) (f : File) (s : TickStore)
    → StaysJammed s.day s (close_old (some message) today (some f) (create today s))
close_old-StaysJammed message today f s = elim (Bool-cases f.is_open) [
  | inl fresh ↦ simp fresh (record {
    message = _;
    failed = refl;
    jammed = record { name = f.name; closed = refl; current = refl };
    kept = λ j. bytes_of-create today j s;
  })
  | inr closed ↦ simp closed (record {
    message = _;
    failed = refl;
    jammed = record { name = f.name; closed = refl; current = refl };
    kept = λ j. bytes_of-create today j s;
  })
]

-- What a message leaves of a store when its tick cannot be written.
record IsLost (day : String) (s s' : TickStore) : Type 0 where
  jammed : IsJammed s' day
  kept : (j : String) → bytes_of j s' ≡ bytes_of j s

then_write-IsLost :
    (on_write : Option (String × Bytes)) (line : Bytes) (day : String) (s : TickStore)
    (r : Option String × TickStore)
    → StaysJammed day s r
    → IsLost day s (then_write on_write line r).1
then_write-IsLost on_write line day s (m, s') t =
    simp (t.failed) (record { jammed = t.jammed; kept = t.kept })

after_marshal-IsLost :
    (encoded : Try Bytes) (faults : Faults) (day today : String) (s : TickStore)
    → str_eq today day ≡ false
    → IsJammed s day
    → IsLost day s (after_marshal encoded faults today s).1
unfolding rotate
after_marshal-IsLost (err m) faults day today s later jam = record {
  jammed = jam;
  kept = λ j. refl;
}
after_marshal-IsLost (ok line) faults day today s later jam =
    let stale : is_stale today s.file s.day ≡ true =
      ap (λ (file : Option File). is_stale today file s.day) jam.closed
      ∙ ap (λ current. not (str_eq today current)) jam.current
      ∙ ap not later in
    then_write-IsLost faults.on_write (line ++ newline ∷ []) day s
      (if is_stale today s.file s.day then rotate faults today s else (none, s))
      (simp stale (rotate-StaysJammed faults.on_open faults.on_close day today s jam))

module _ {F : Type 0} (marshal : PriceTick F → Try Bytes) where
  handle_price-IsLost :
      (faults : Faults) (day today : String) (tick : Option (PriceTick F)) (s : TickStore)
      → str_eq today day ≡ false
      → IsJammed s day
      → IsLost day s (handle_price marshal faults today tick s)
  unfolding handle_price append
  handle_price-IsLost faults day today none s later jam = record { jammed = jam; kept = λ j. refl }
  handle_price-IsLost faults day today (some tick) s later jam =
      after_marshal-IsLost (marshal tick) faults day today s later jam

  record_all-IsLost :
      (day : String) (ms : List (Message F)) (s : TickStore) (j : String)
      → IsAfter day ms
      → IsJammed s day
      → bytes_of j (record_all marshal ms s) ≡ bytes_of j s
  unfolding record_all
  record_all-IsLost day [] s j later jam = refl
  record_all-IsLost day (m ∷ ms) s j later jam =
      let lost = handle_price-IsLost m.faults day m.day m.tick s later.0 jam in
      record_all-IsLost day ms (handle_price marshal m.faults m.day m.tick s) j later.1 lost.jammed
      ∙ lost.kept j

  -- If a tick of a new day encodes and the file of that day opens, but the old file cannot be closed,
  -- that tick and the tick of every later message is lost, whatever works again by then, as
  -- long as no message comes on the old day: the bytes of every file stay as they were.
  pub record_all_jams :
      (faults : Faults) (today message : String) (tick : PriceTick F) (line : Bytes) (f : File)
      (ms : List (Message F)) (s : TickStore) (j : String)
      → s.file ≡ some f
      → marshal tick ≡ ok line
      → faults.on_open ≡ none
      → faults.on_close ≡ some message
      → IsAfter s.day (record { faults = faults; day = today; tick = some tick } ∷ ms)
      → bytes_of j
          (record_all marshal (record { faults = faults; day = today; tick = some tick } ∷ ms) s)
        ≡ bytes_of j s
  unfolding record_all handle_price append rotate
  record_all_jams faults today message tick line f ms s j old encoded opened unclosed later =
      let stale : is_stale today s.file s.day ≡ true =
        ap (λ (file : Option File). is_stale today file s.day) old ∙ ap not later.0 in
      let turned =
        subst
          (λ (file : Option File).
            StaysJammed s.day s (close_old (some message) today file (create today s)))
          (sym old) (close_old-StaysJammed message today f s) in
      let first : IsLost s.day s (handle_price marshal faults today (some tick) s) =
        subst (λ (written : Try Bytes). IsLost s.day s (after_marshal written faults today s).1)
          (sym encoded)
          (then_write-IsLost faults.on_write (line ++ newline ∷ []) s.day s
            (if is_stale today s.file s.day then rotate faults today s else (none, s))
            (simp (stale, opened, unclosed) turned)) in
      record_all-IsLost s.day ms (handle_price marshal faults today (some tick) s) j later.1
        first.jammed
      ∙ first.kept j
