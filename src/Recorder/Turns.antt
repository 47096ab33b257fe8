-- ===== src/Recorder/Turns.antt =====
-- src/analysts/recorder/store.go: the file that a tick is written to, while no file operation fails.
use mathlib.Core.Path.{subst}
use navier_stocks.Base.{
  ◌≡◌, refl, sym, ap, ◌∙◌, inl, inr, true, Option, none, some, [], ◌++◌, String, if◌then◌else◌,
  Bool-cases,
}
use navier_stocks.Base.Scan.{Bytes}
use navier_stocks.Base.Text.{str_eq, str_eq_iff}
use navier_stocks.Base.Dict.{lookup_or-insert}
use navier_stocks.Recorder.{
  File, TickStore, Faults, bytes_of, create, rotate, is_stale, then_write, close_old,
}

abbrev pub no_faults : Faults
no_faults = record { on_open = none; on_close = none; on_write = none }

abbrev pub opened_as : String → Option File
opened_as day = some (record { name = day; is_open = true })

-- The file that is open is the one of the day.
abbrev pub IsReady : TickStore → Option File → Type 0
IsReady s none = Unit {0}
IsReady s (some f) = (f.is_open ≡ true) × (f.name ≡ s.day)

pub bytes_of-create : (k day : String) (s : TickStore) → bytes_of day (create k s) ≡ bytes_of day s
bytes_of-create k day s = elim (Bool-cases (str_eq k day)) [
  | inl same ↦
      simp (lookup_or-insert k day (bytes_of k s) s.files [], same)
        (ap (λ name. bytes_of name s) ((str_eq_iff k day).0 same))
  | inr other ↦ simp (lookup_or-insert k day (bytes_of k s) s.files [], other) refl
]

-- A store that has turned to a day, with the bytes that it had.
pub record HasTurned (day : String) (s : TickStore) (r : Option String × TickStore) : Type 0 where
  fine : r.0 ≡ none
  opened : r.1.file ≡ opened_as day
  current : r.1.day ≡ day
  kept : (j : String) → bytes_of j r.1 ≡ bytes_of j s

close_old-HasTurned :
    (day : String) (file : Option File) (s : TickStore)
    → IsReady s file
    → HasTurned day s (close_old none day file (create day s))
close_old-HasTurned day none s ready = record {
  fine = refl;
  opened = refl;
  current = refl;
  kept = λ j. bytes_of-create day j s;
}
close_old-HasTurned day (some f) s ready =
    simp (ready.0)
      (record { fine = refl; opened = refl; current = refl; kept = λ j. bytes_of-create day j s })

pub turn :
    (day : String) (file : Option File) (s : TickStore)
    → s.file ≡ file
    → IsReady s file
    → HasTurned day s (if is_stale day file s.day then rotate no_faults day s else (none, s))
unfolding rotate
turn day none s e ready =
    close_old-HasTurned day s.file s (subst (λ (file : Option File). IsReady s file) (sym e) ready)
turn day (some f) s e ready = elim (Bool-cases (str_eq day s.day)) [
  | inr other ↦ simp other (
      close_old-HasTurned day s.file s
        (subst (λ (file : Option File). IsReady s file) (sym e) ready))
  | inl today ↦ simp today (record {
    fine = refl;
    opened =
        e
        ∙ ap (λ name. some (record { name = name; is_open = f.is_open }))
            (ready.1 ∙ sym ((str_eq_iff day s.day).0 today))
        ∙ ap (λ is_open. some (record { name = day; is_open = is_open })) ready.0;
    current = sym ((str_eq_iff day s.day).0 today);
    kept = λ j. refl;
  })
]

-- A store that has written bytes on a day.
pub record HasWritten (day : String) (bytes : Bytes) (s s' : TickStore) : Type 0 where
  pub opened : s'.file ≡ opened_as day
  pub current : s'.day ≡ day
  pub added :
      (j : String)
      → bytes_of j s' ≡ (if str_eq day j then bytes_of day s ++ bytes else bytes_of j s)

pub write-HasWritten :
    (day : String) (bytes : Bytes) (s : TickStore) (r : Option String × TickStore)
    → HasTurned day s r
    → HasWritten day bytes s (then_write none bytes r).1
write-HasWritten day bytes s (m, s') t =
    simp (t.fine, t.opened)
      (record {
        opened = refl;
        current = t.current;
        added = λ j.
            lookup_or-insert day j (bytes_of day s' ++ bytes) s'.files []
            ∙ rw (t.kept day, t.kept j) refl;
      })
