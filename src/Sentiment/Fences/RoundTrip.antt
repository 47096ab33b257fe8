-- ===== src/Sentiment/Fences/RoundTrip.antt =====
-- src/analysts/sentiment/llm.go: a fenced text is unwrapped.
use Prim.Native.Char.{Char, code}
use navier_stocks.Base.{◌≡◌, refl, sym, ap, ◌∙◌, false, some, String, ◌==◌}
use navier_stocks.Base.Text.{concat, concat_nil, concat_cons, has_prefix-concat, concat_assoc}
use navier_stocks.Base.Trim.{trim, trim_left, trim_right, cons_trimmed, is_space}
use navier_stocks.Sentiment.Fences.{
  fence, newline, after_newline, cut_here, before_last, or_whole, without_opening, without_closing,
  strip_code_fences,
}

-- A text without a newline.
abbrev pub IsLine : String → Type 0
IsLine String.[] = Unit {0}
IsLine (String.◌∷◌ c s) = ((code c == newline) ≡ false) × IsLine s

cons_trimmed-cons :
    (c d : Char) (s : String) → cons_trimmed c (String.◌∷◌ d s) ≡ String.◌∷◌ c (String.◌∷◌ d s)
cons_trimmed-cons c d s = refl

cons_trimmed-fence :
    (c : Char) (s : String) → cons_trimmed c (concat s fence) ≡ String.◌∷◌ c (concat s fence)
cons_trimmed-fence c String.[] = refl
cons_trimmed-fence c (String.◌∷◌ d s) = rw (concat_cons d s fence) refl

trim_right-fence : (s : String) → trim_right (concat s fence) ≡ concat s fence
unfolding trim_right is_space
trim_right-fence String.[] = refl
trim_right-fence (String.◌∷◌ c s) =
    rw (concat_cons c s fence) (ap (cons_trimmed c) (trim_right-fence s) ∙ cons_trimmed-fence c s)

trim_right-newline : (s : String) → trim_right (concat s "\n") ≡ trim_right s
unfolding trim_right is_space
trim_right-newline String.[] = refl
trim_right-newline (String.◌∷◌ c s) =
    rw (concat_cons c s "\n") (ap (cons_trimmed c) (trim_right-newline s))

before_last-fence : (s : String) → before_last (concat s fence) ≡ some s
unfolding before_last
before_last-fence String.[] = refl
before_last-fence (String.◌∷◌ c s) =
    rw (concat_cons c s fence) (ap (cut_here c (concat s fence)) (before_last-fence s))

after_newline-line :
    (info rest : String) → IsLine info → after_newline (concat info (concat "\n" rest)) ≡ rest
unfolding after_newline
after_newline-line String.[] rest h =
    ap after_newline (concat_nil (concat "\n" rest) ∙ concat_cons "\n" "" rest) ∙ concat_nil rest
after_newline-line (String.◌∷◌ c info) rest h =
    rw (concat_cons c info (concat "\n" rest), h.0) (after_newline-line info rest h.1)

-- A text behind an opening fence with an info string, and before a closing fence.
abbrev pub fenced : String → String → String
fenced info body = concat fence (concat info (concat "\n" (concat (concat body "\n") fence)))

-- The fenced text in front of its closing fence.
abbrev opened : String → String → String
opened info body = concat fence (concat info (concat "\n" (concat body "\n")))

fenced-opened : (info body : String) → fenced info body ≡ concat (opened info body) fence
fenced-opened info body = simp concat_assoc

-- Three marks begin the text, and none of them is space or a newline.
trim_left-fence : (rest : String) → trim_left (concat fence rest) ≡ concat fence rest
unfolding trim_left is_space
trim_left-fence rest = rw (concat_cons "`" "``" rest) refl

after_newline-fence : (rest : String) → after_newline (concat fence rest) ≡ after_newline rest
unfolding after_newline
after_newline-fence rest =
    rw
      (
        concat_cons "`" "``" rest,
        concat_cons "`" "`" rest,
        concat_cons "`" "" rest,
        concat_nil rest,
      )
      refl

trim-fenced : (info body : String) → trim (fenced info body) ≡ fenced info body
unfolding trim
trim-fenced info body =
    ap trim_left (
      ap trim_right (fenced-opened info body)
      ∙ trim_right-fence (opened info body)
      ∙ sym (fenced-opened info body))
    ∙ trim_left-fence (concat info (concat "\n" (concat (concat body "\n") fence)))

without_opening-fenced :
    (info body : String)
    → IsLine info
    → without_opening (fenced info body) ≡ concat (concat body "\n") fence
without_opening-fenced info body h =
    let rest = concat info (concat "\n" (concat (concat body "\n") fence)) in
    rw (has_prefix-concat fence rest)
      (after_newline-fence rest ∙ after_newline-line info (concat (concat body "\n") fence) h)

-- A text that a model wraps in a code fence, with whatever info string, comes out as it would without
-- the fence, trimmed.
pub strip_code_fences-fenced :
    (info body : String) → IsLine info → strip_code_fences (fenced info body) ≡ trim body
unfolding strip_code_fences
strip_code_fences-fenced info body h =
    ap (λ s. trim (without_closing (without_opening s))) (trim-fenced info body)
    ∙ ap (λ s. trim (without_closing s)) (without_opening-fenced info body h)
    ∙ ap (λ o. trim (or_whole (concat (concat body "\n") fence) o))
        (before_last-fence (concat body "\n"))
    ∙ unfold trim in ap trim_left (trim_right-newline body)
