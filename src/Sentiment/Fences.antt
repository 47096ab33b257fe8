-- ===== src/Sentiment/Fences.antt =====
-- src/analysts/sentiment/llm.go: `stripCodeFences`, over the code points of a text.
pub mod RoundTrip
use Prim.Native.Char.{Char, code}
use navier_stocks.Base.{ℕ, Bool, true, false, Option, none, some, String, ◌==◌, if◌then◌else◌}
use navier_stocks.Base.Text.{has_prefix}
use navier_stocks.Base.Trim.{trim}

abbrev pub fence : String
fence = "```"

abbrev pub newline : ℕ
newline = 10

-- What follows the first newline; empty without one.
unfoldable pub after_newline : String → String
after_newline String.[] = String.[]
after_newline (String.◌∷◌ c s) = if code c == newline then s else after_newline s

abbrev pub cut_here : Char → String → Option String → Option String
cut_here c s (some before) = some (String.◌∷◌ c before)
cut_here c s none = if has_prefix (String.◌∷◌ c s) fence then some String.[] else none

-- What stands before the last fence, if there is one.
unfoldable pub before_last : String → Option String
before_last String.[] = none
before_last (String.◌∷◌ c s) = cut_here c s (before_last s)

abbrev pub or_whole : String → Option String → String
or_whole s (some before) = before
or_whole s none = s

abbrev pub without_opening : String → String
without_opening s = if has_prefix s fence then after_newline s else s

abbrev pub without_closing : String → String
without_closing s = or_whole s (before_last s)

-- `stripCodeFences`
unfoldable pub strip_code_fences : String → String
unfolding trim after_newline before_last
strip_code_fences s = trim (without_closing (without_opening (trim s)))
