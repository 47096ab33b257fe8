-- ===== src/Nats/Durables.antt =====
-- src/pkg/nats/pubsub.go: the names of durable consumers.
use Prim.Native.Char.{code}
use navier_stocks.Base.{
  ℕ, ◌≡◌, refl, ap, ◌∙◌, inl, inr, Bool, true, false, ◌||◌, String, arith, ◌==◌, if◌then◌else◌,
  Bool-cases,
}
use navier_stocks.Base.Text.{concat, concat_nil, concat_cons}
use navier_stocks.Nats.{replace_all, sanitized, durable_name}

-- Whether a code point stands in a text.
unfoldable pub has_code : ℕ → String → Bool
has_code k String.[] = false
has_code k (String.◌∷◌ c s) = if code c == k then true else has_code k s

has_code-concat : (k : ℕ) (s t : String) → has_code k (concat s t) ≡ (has_code k s || has_code k t)
unfolding has_code
has_code-concat k String.[] t = ap (has_code k) (concat_nil t) ∙ refl
has_code-concat k (String.◌∷◌ c s) t =
    ap (has_code k) (concat_cons c s t) ∙ elim (Bool-cases (code c == k)) [
      | inl same ↦ simp same refl
      | inr other ↦ simp other (has_code-concat k s t)
    ]

has_code-replaced :
    (old : ℕ) (new s : String)
    → has_code old new ≡ false
    → has_code old (replace_all old new s) ≡ false
unfolding has_code replace_all
has_code-replaced old new String.[] h = refl
has_code-replaced old new (String.◌∷◌ c s) h = elim (Bool-cases (code c == old)) [
  | inl same ↦
      simp same
        (has_code-concat old new (replace_all old new s) ∙ simp h (has_code-replaced old new s h))
  | inr other ↦ simp other (has_code-replaced old new s h)
]

has_code-kept_out :
    (k old : ℕ) (new s : String)
    → has_code k new ≡ false
    → has_code k s ≡ false
    → has_code k (replace_all old new s) ≡ false
unfolding has_code replace_all
has_code-kept_out k old new String.[] h out = refl
has_code-kept_out k old new (String.◌∷◌ c s) h out =
    let other : (code c == k) ≡ false = ground (arith, out) in
    let rest : has_code k s ≡ false = ground (arith, out) in
    elim (Bool-cases (code c == old)) [
      | inl same ↦ simp same (
          has_code-concat k new (replace_all old new s)
          ∙ simp h (has_code-kept_out k old new s h rest))
      | inr kept ↦ simp (kept, other) (has_code-kept_out k old new s h rest)
    ]

has_code-sanitized :
    (subj : String)
    → (has_code b'.' (sanitized subj) ≡ false)
      × (has_code b'*' (sanitized subj) ≡ false)
      × (has_code b'>' (sanitized subj) ≡ false)
unfolding has_code
has_code-sanitized subj =
    let dashed = replace_all b'.' "-" subj in
    let starred = replace_all b'*' "star" dashed in
    (
      has_code-kept_out b'.' b'>' "gt" starred refl
          (has_code-kept_out b'.' b'*' "star" dashed refl (has_code-replaced b'.' "-" subj refl)),
      has_code-kept_out b'*' b'>' "gt" starred refl (has_code-replaced b'*' "star" dashed refl),
      has_code-replaced b'>' "gt" starred refl,
    )

has_code-named :
    (k : ℕ) (prefix name : String)
    → has_code k prefix ≡ false
    → has_code k "-" ≡ false
    → has_code k name ≡ false
    → has_code k (concat prefix (concat "-" name)) ≡ false
has_code-named k prefix name p dash n =
    has_code-concat k prefix (concat "-" name) ∙ simp (p, has_code-concat k "-" name, dash, n) refl

-- For a prefix without dots and wildcards, the name of a durable consumer has neither, whatever the
-- subject.
pub durable_name-IsPlain :
    (prefix subj : String)
    → has_code b'.' prefix ≡ false
    → has_code b'*' prefix ≡ false
    → has_code b'>' prefix ≡ false
    → (has_code b'.' (durable_name prefix subj) ≡ false)
      × (has_code b'*' (durable_name prefix subj) ≡ false)
      × (has_code b'>' (durable_name prefix subj) ≡ false)
unfolding durable_name has_code
durable_name-IsPlain prefix subj dot star gt =
    let (no_dot, no_star, no_gt) = has_code-sanitized subj in
    (
      has_code-named b'.' prefix (sanitized subj) dot refl no_dot,
      has_code-named b'*' prefix (sanitized subj) star refl no_star,
      has_code-named b'>' prefix (sanitized subj) gt refl no_gt,
    )
