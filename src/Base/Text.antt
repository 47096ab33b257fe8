-- ===== src/Base/Text.antt =====
-- Go's strings: whole-text tests, `strings.HasPrefix`, and the `%d` of `fmt.Sprintf`.
pub mod Digits
use Prim.Native.Char.{Char}
use Prim.Native.String.append
use Prim.Native.String.{String, len, slice, ◌++◌}
use text.Mathlib.Text.{◌==◌ as text_eq, starts_with}
use text.Mathlib.TextEquality.{eq_iff, starts_with_iff}
use text.Mathlib.TextLemmas.{append_assoc}
use text.Mathlib.TextPositions.{eq_refl, len-append, slice-append_left, starts_with-append}
use navier_stocks.Base.{
  ℕ, zero, suc, ◌+◌, ◌/◌, ◌%◌, ◌<◌, ◌≡◌, refl, ◌↔◌, Bool, true, false, arith, ltb, ◌==◌,
  if◌then◌else◌, Bool-cases, inl, inr, ap, sym, ◌∙◌, ◌≢◌,
}

abbrev pub str_eq : String → String → Bool
str_eq = text_eq

abbrev pub is_empty : String → Bool
is_empty s = str_eq s ""

pub str_eq_iff : (s t : String) → (str_eq s t ≡ true) ↔ (s ≡ t)
str_eq_iff = eq_iff

pub str_eq_refl : (s : String) → str_eq s s ≡ true
str_eq_refl = eq_refl

abbrev pub has_prefix : String → String → Bool
has_prefix = starts_with

abbrev pub concat : String → String → String
concat = ◌++◌

pub concat_nil : (t : String) → concat "" t ≡ t
concat_nil t = append.nil t

pub concat_cons : (c : Char) (s t : String) → concat (String.◌∷◌ c s) t ≡ String.◌∷◌ c (concat s t)
concat_cons c s t = append.cons c s t

-- The size in bytes, and what it says of texts that are put together.
abbrev pub size : String → ℕ
size = len

-- Go's `s[i:]`
abbrev pub from_byte : String → ℕ → String
from_byte s i = slice s i (len s)

pub size-concat : (s t : String) → size (concat s t) ≡ size s + size t
size-concat = len-append

pub concat_nonempty : (s t : String) → 0 < size s → is_empty (concat s t) ≡ false
concat_nonempty s t h = elim (Bool-cases (is_empty (concat s t))) [
  | inl e ↦ absurd (omega (arith, size-concat s t, ap size ((str_eq_iff (concat s t) "").0 e)))
  | inr e ↦ e
]

pub has_prefix-concat : (s t : String) → has_prefix (concat s t) s ≡ true
has_prefix-concat = starts_with-append

pub concat_assoc : (s t u : String) → concat (concat s t) u ≡ concat s (concat t u)
concat_assoc = append_assoc

-- Texts of one size at the beginning of one text are equal.
same_beginning : (s t u v : String) → size s ≡ size t → concat s u ≡ concat t v → s ≡ t
same_beginning s t u v l e =
    sym (slice-append_left s u)
    ∙ ap (λ x. slice x 0 (size s)) e
    ∙ ap (λ n. slice (concat t v) 0 n) l
    ∙ slice-append_left t v

-- A text that begins with `s` has no prefix that begins otherwise.
pub other_prefix :
    (s t rest more : String)
    → size s ≡ size t
    → s ≢ t
    → has_prefix (concat s rest) (concat t more) ≡ false
other_prefix s t rest more l ne = elim (Bool-cases (has_prefix (concat s rest) (concat t more))) [
  | inl begins ↦
      let (u, e) = (starts_with_iff (concat s rest) (concat t more)).0 begins in
      absurd (ne (same_beginning s t rest (concat more u) l (sym e ∙ concat_assoc t more u)))
  | inr other ↦ other
]

-- The shape `<prefix><a>-<b>` of a reference.
abbrev pub reference : String → String → String → String
reference prefix a b = concat (concat (concat prefix a) "-") b

reference-eq-concat : (p a b : String) → reference p a b ≡ concat p (concat a (concat "-" b))
reference-eq-concat p a b = concat_assoc (concat p a) "-" b ∙ concat_assoc p a (concat "-" b)

pub has_prefix-reference : (p a b : String) → has_prefix (reference p a b) p ≡ true
has_prefix-reference p a b =
    ap (λ s. has_prefix s p) (reference-eq-concat p a b)
    ∙ has_prefix-concat p (concat a (concat "-" b))

pub other_prefix-reference :
    (p a b t more : String)
    → size p ≡ size t
    → p ≢ t
    → has_prefix (reference p a b) (concat t more) ≡ false
other_prefix-reference p a b t more l ne =
    ap (λ s. has_prefix s (concat t more)) (reference-eq-concat p a b)
    ∙ other_prefix p t (concat a (concat "-" b)) more l ne

-- The decimal digit of a number below ten.
abbrev pub digit : ℕ → Char
digit d =
    if d == 0
    then "0"
    else if d == 1
    then "1"
    else if d == 2
    then "2"
    else if d == 3
    then "3"
    else if d == 4
    then "4"
    else if d == 5
    then "5"
    else if d == 6
    then "6"
    else if d == 7
    then "7"
    else if d == 8
    then "8"
    else "9"

-- The digits of `n` in front of `rest`, with a digit for each unit of fuel at most.
pub digits_onto : ℕ → ℕ → String → String
digits_onto zero n rest = rest
digits_onto (suc f) n rest =
    let more = digits_onto f (n / 10) (String.◌∷◌ (digit (n % 10)) rest) in
    if ltb n 10 then String.◌∷◌ (digit n) rest else more

-- `fmt.Sprintf("%d", n)` of a number that is not negative; an int64 has 19 digits at most.
unfoldable pub decimal_text : ℕ → String
unfolding digits_onto
decimal_text n = digits_onto 19 n ""

decimal_text-1026 : decimal_text 1026 ≡ "1026"
unfolding decimal_text
decimal_text-1026 = refl

has_prefix-exit : has_prefix "exit-12" "exit-" ≡ true
has_prefix-exit = refl
