-- ===== src/Base/Scan.antt =====
-- Go's `bufio.ScanLines` over bytes: the lines of a text, the last one also without its newline, and
-- each without a carriage return at its end.
use mathlib.Core.List.{append_assoc, append-nil}
use navier_stocks.Base.{
  ℕ, ◌≡◌, refl, sym, ap, ◌∙◌, inl, inr, Bool, false, ◌||◌, List, [], ◌∷◌, ◌++◌, arith, ◌==◌,
  if◌then◌else◌, Bool-cases, map,
}

abbrev pub Bytes : Type 0
Bytes = List ℕ

abbrev pub newline : ℕ
newline = 10

-- `dropCR`
unfoldable pub drop_cr : Bytes → Bytes
drop_cr [] = []
drop_cr (c ∷ []) = if c == 13 then [] else c ∷ []
drop_cr (c ∷ d ∷ cs) = c ∷ drop_cr (d ∷ cs)

abbrev pub or_nothing : Bytes → List Bytes
or_nothing [] = []
or_nothing (c ∷ cs) = (c ∷ cs) ∷ []

-- The line so far, after one more byte.
abbrev pub line_after : ℕ → Bytes → Bytes
line_after c line = if c == newline then [] else line ++ c ∷ []

-- The lines of a text that follows the beginning of a line.
unfoldable pub scan_from : Bytes → Bytes → List Bytes
scan_from line [] = or_nothing line
scan_from line (c ∷ cs) =
    let rest = scan_from (line_after c line) cs in if c == newline then line ∷ rest else rest

abbrev pub scan_lines : Bytes → List Bytes
scan_lines text = map drop_cr (scan_from [] text)

-- The lines of a text that end in a newline, and what follows the last newline.
unfoldable pub whole_from : Bytes → Bytes → List Bytes
whole_from line [] = []
whole_from line (c ∷ cs) =
    let rest = whole_from (line_after c line) cs in if c == newline then line ∷ rest else rest

unfoldable pub tail_from : Bytes → Bytes → Bytes
tail_from line [] = line
tail_from line (c ∷ cs) = tail_from (line_after c line) cs

abbrev pub whole_lines : Bytes → List Bytes
whole_lines text = whole_from [] text

abbrev pub torn_tail : Bytes → Bytes
torn_tail text = tail_from [] text

abbrev pub has_newline : Bytes → Bool
has_newline [] = false
has_newline (c ∷ cs) = c == newline || has_newline cs

pub scan_from-append :
    (text more line : Bytes)
    → scan_from line (text ++ more) ≡ whole_from line text ++ scan_from (tail_from line text) more
unfolding scan_from whole_from tail_from
scan_from-append [] more line = refl
scan_from-append (c ∷ cs) more line = elim (Bool-cases (c == newline)) [
  | inl ends ↦ simp ends (ap (λ ls. line ∷ ls) (scan_from-append cs more []))
  | inr goes_on ↦ simp goes_on (scan_from-append cs more (line ++ c ∷ []))
]

-- A line without a newline in it is read with the beginning that it is appended to.
pub scan_from_line :
    (text more line : Bytes)
    → has_newline text ≡ false
    → scan_from line (text ++ newline ∷ more) ≡ (line ++ text) ∷ scan_from [] more
unfolding scan_from
scan_from_line [] more line h = ap (λ l. l ∷ scan_from [] more) (sym (append-nil line))
scan_from_line (c ∷ cs) more line h = elim (Bool-cases (c == newline)) [
  | inl ends ↦ absurd (ground (arith, h, ends))
  | inr goes_on ↦ simp goes_on (
      scan_from_line cs more (line ++ c ∷ []) (ground (arith, h, goes_on))
      ∙ ap (λ l. l ∷ scan_from [] more) (append_assoc line (c ∷ []) cs))
]

scan_lines_example : scan_lines (97 ∷ 13 ∷ 10 ∷ 10 ∷ 98 ∷ []) ≡ (97 ∷ []) ∷ [] ∷ (98 ∷ []) ∷ []
unfolding scan_from drop_cr
scan_lines_example = refl
