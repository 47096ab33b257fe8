-- ===== src/Groww/References.antt =====
-- src/pkg/groww/order.go: the reference of an order, by its bytes.
pub mod Shape
use navier_stocks.Base.{
  ℕ, suc, ◌-◌, ◌&&◌, List, [], ◌∷◌, ◌++◌, ltb, ◌==◌, if◌then◌else◌, length, take, replicate,
}

abbrev pub Bytes : Type 0
Bytes = List ℕ

abbrev pub hyphen : ℕ
hyphen = b'-'

abbrev pub max_len : ℕ
max_len = 20

abbrev pub min_len : ℕ
min_len = 8

-- The loop that keeps two hyphens, after `n` hyphens.
unfoldable pub keep_from : ℕ → Bytes → Bytes
keep_from n [] = []
keep_from n (c ∷ cs) =
    let n' = if c == hyphen then suc n else n in
    let rest = keep_from n' cs in if c == hyphen && ltb 2 n' then rest else c ∷ rest

-- The loop that appends zeros.
abbrev pub pad : Bytes → Bytes
pad keep = keep ++ replicate (min_len - length keep) b'0'

-- `ParseOrderReferenceID`
unfoldable pub parse_order_reference_id : Bytes → Bytes
unfolding keep_from
parse_order_reference_id ref = pad (keep_from 0 (take max_len ref))

-- `OrderReferenceID`
unfoldable pub order_reference_id : Bytes → Bytes
order_reference_id exec_ref = parse_order_reference_id exec_ref
