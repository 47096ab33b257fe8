-- ===== src/Groww/References/Shape.antt =====
-- src/pkg/groww/order.go: the shape of an order's reference.
use navier_stocks.Base.{
  ℕ, zero, suc, ◌+◌, ◌-◌, ◌≤◌, ◌≡◌, refl, ap, sym, ◌∙◌, [], ◌∷◌, ◌++◌, arith, ◌==◌, if◌then◌else◌,
  length, take, replicate, length-append, length-take, length-replicate,
}
use mathlib.Core.List.{append-nil}
use navier_stocks.Groww.References.{
  Bytes, hyphen, max_len, min_len, keep_from, pad, parse_order_reference_id,
}

abbrev pub hyphens : Bytes → ℕ
hyphens [] = 0
hyphens (c ∷ cs) = if c == hyphen then suc (hyphens cs) else hyphens cs

-- From 8 to 20 bytes, with two hyphens at most.
pub record IsReference (ref : Bytes) : Type 0 where
  pub long_enough : min_len ≤ length ref
  pub short_enough : length ref ≤ max_len
  pub few_hyphens : hyphens ref ≤ 2

hyphens-append : (a b : Bytes) → hyphens (a ++ b) ≡ hyphens a + hyphens b
hyphens-append [] b = omega arith
hyphens-append (c ∷ a) b = ground (arith, hyphens-append a b)

hyphens-replicate : (n : ℕ) → hyphens (replicate n b'0') ≡ 0
hyphens-replicate zero = refl
hyphens-replicate (suc n) = hyphens-replicate n

hyphens-keep_from : (n : ℕ) (cs : Bytes) → hyphens (keep_from n cs) ≤ 2 - n
unfolding keep_from
hyphens-keep_from n [] = omega arith
hyphens-keep_from n (c ∷ cs) = ground (arith, hyphens-keep_from n cs, hyphens-keep_from (suc n) cs)

length-keep_from : (n : ℕ) (cs : Bytes) → length (keep_from n cs) ≤ length cs
unfolding keep_from
length-keep_from n [] = omega arith
length-keep_from n (c ∷ cs) = ground (arith, length-keep_from n cs, length-keep_from (suc n) cs)

keep_from_all : (n : ℕ) (cs : Bytes) → hyphens cs + n ≤ 2 → keep_from n cs ≡ cs
unfolding keep_from
keep_from_all n [] h = refl
keep_from_all n (c ∷ cs) h = ground (arith, keep_from_all n cs, keep_from_all (suc n) cs)

take_all : (n : ℕ) (cs : Bytes) → length cs ≤ n → take n cs ≡ cs
take_all zero [] h = refl
take_all zero (c ∷ cs) h = absurd (omega arith)
take_all (suc n) [] h = refl
take_all (suc n) (c ∷ cs) h = ap (◌∷◌ c) (take_all n cs (omega arith))

pad_long : (cs : Bytes) → min_len ≤ length cs → pad cs ≡ cs
pad_long cs h =
    let none_left : min_len - length cs ≡ 0 = omega arith in
    ap (λ n. cs ++ replicate n b'0') none_left ∙ append-nil cs

abbrev zero_byte : ℕ
zero_byte = b'0'

pad-IsReference : (cs : Bytes) → length cs ≤ max_len → hyphens cs ≤ 2 → IsReference (pad cs)
pad-IsReference cs l h =
    let zeros = replicate (min_len - length cs) zero_byte in
    let size = length-append {0} cs zeros in
    let added = length-replicate (min_len - length cs) zero_byte in
    record {
      long_enough = omega (arith, size, added);
      short_enough = omega (arith, size, added);
      few_hyphens = omega (arith, hyphens-append cs zeros, hyphens-replicate (min_len - length cs));
    }

parse_order_reference_id_keeps :
    (ref : Bytes) → IsReference ref → parse_order_reference_id ref ≡ ref
unfolding parse_order_reference_id
parse_order_reference_id_keeps ref r =
    ap (λ t. pad (keep_from 0 t)) (take_all max_len ref r.short_enough)
    ∙ ap pad (keep_from_all 0 ref (omega (arith, r.few_hyphens)))
    ∙ pad_long ref r.long_enough

parse-IsReference : (ref : Bytes) → IsReference (parse_order_reference_id ref)
unfolding parse_order_reference_id
parse-IsReference ref =
    let start = take max_len ref in
    pad-IsReference (keep_from 0 start)
      (omega (arith, length-keep_from 0 start, length-take {0} max_len ref))
      (omega (arith, hyphens-keep_from 0 start))

-- `ParseOrderReferenceID` makes of any text one of 8 to 20 bytes with two hyphens at most; to do it
-- again changes nothing.
pub parse_order_reference_id-IsReference :
    (ref : Bytes)
    → IsReference (parse_order_reference_id ref)
      × (parse_order_reference_id (parse_order_reference_id ref) ≡ parse_order_reference_id ref)
parse_order_reference_id-IsReference ref = (
  parse-IsReference ref,
  parse_order_reference_id_keeps (parse_order_reference_id ref) (parse-IsReference ref),
)

take_start : (n : ℕ) (start rest : Bytes) → length start ≡ n → take n (start ++ rest) ≡ start
take_start zero [] rest h = refl
take_start zero (c ∷ start) rest h = absurd (omega (arith, h))
take_start (suc n) [] rest h = absurd (omega (arith, h))
take_start (suc n) (c ∷ start) rest h = ap (◌∷◌ c) (take_start n start rest (omega (arith, h)))

-- References that agree in their first 20 bytes become one.
pub parse_order_reference_id_collides :
    (start rest more : Bytes)
    → length start ≡ max_len
    → parse_order_reference_id (start ++ rest) ≡ parse_order_reference_id (start ++ more)
unfolding parse_order_reference_id
parse_order_reference_id_collides start rest more h =
    ap (λ t. pad (keep_from 0 t))
      (take_start max_len start rest h ∙ sym (take_start max_len start more h))
