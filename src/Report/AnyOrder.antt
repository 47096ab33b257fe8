-- ===== src/Report/AnyOrder.antt =====
-- src/pkg/database/report.go: `ComputeSummary` does not depend on the order of its input.
use mathlib.Core.List.{Memᴰ, Permᴰ}
use mathlib.Core.List.Permᴰ
use mathlib.Core.Bool.{true≢false, false≢true}
use navier_stocks.Base.{
  ℕ, ◌≡◌, refl, sym, ap, ◌<◌, ◌∙◌, ◌⊎◌, inl, inr, true, false, Option, none, some, List, [], ◌∷◌,
  String, arith, ltb, Bool-cases,
}
use navier_stocks.Float.{Float64}
use navier_stocks.Models.{Position}
use navier_stocks.Report.{closed_before, insert_position, ordered, compute_summary}

lt_cases : (a b : ℕ) → (a ≡ b) ⊎ ((a < b) ⊎ (b < a))
lt_cases a b = elim (Bool-cases (ltb a b)) [
  | inl less ↦ inr (inl (ground (arith, less)))
  | inr rest ↦ elim (Bool-cases (ltb b a)) [
    | inl more ↦ inr (inr (ground (arith, more)))
    | inr same ↦ inl (ground (arith, rest, same))
  ]
]

-- One of two times comes first, or they are the same.
before_cases :
    (a b : Option ℕ)
    → (a ≡ b)
      ⊎ (((closed_before a b ≡ true) × (closed_before b a ≡ false))
          ⊎ ((closed_before a b ≡ false) × (closed_before b a ≡ true)))
before_cases none none = inl refl
before_cases none (some b) = inr (inl (refl, refl))
before_cases (some a) none = inr (inr (refl, refl))
before_cases (some a) (some b) = elim (lt_cases a b) [
  | inl same ↦ inl (ap some same)
  | inr apart ↦ inr (elim apart [
    | inl less ↦ inl (ground (arith, less), ground (arith, less))
    | inr more ↦ inr (ground (arith, more), ground (arith, more))
  ])
]

before_trans :
    (a b c : Option ℕ)
    → closed_before a b ≡ true
    → closed_before c b ≡ false
    → closed_before a c ≡ true
before_trans none none c h k = absurd (false≢true h)
before_trans (some a) none c h k = absurd (false≢true h)
before_trans a (some b) none h k = absurd (true≢false k)
before_trans none (some b) (some c) h k = refl
before_trans (some a) (some b) (some c) h k = ground (arith, h, k)

module _ {F : Type 0} where
  -- That no two different positions of a list were closed at the same time.
  abbrev pub IsUntied : List (Position F) → Type 0
  IsUntied ps = (p q : Position F) → Memᴰ p ps → Memᴰ q ps → p.closed_at ≡ q.closed_at → p ≡ q

  insert_position_comm :
      (p q : Position F) (rs : List (Position F))
      → closed_before p.closed_at q.closed_at ≡ true
      → closed_before q.closed_at p.closed_at ≡ false
      → insert_position p (insert_position q rs) ≡ insert_position q (insert_position p rs)
  insert_position_comm p q [] h k = rw (h, k) refl
  insert_position_comm p q (r ∷ rs) h k =
      elim (Bool-cases (closed_before r.closed_at q.closed_at)) [
        | inl rq ↦ elim (Bool-cases (closed_before r.closed_at p.closed_at)) [
          | inl rp ↦ simp (rq, rp, insert_position_comm p q rs h k)
          | inr rp ↦ simp (rq, rp, h)
        ]
        | inr rq ↦ elim (Bool-cases (closed_before r.closed_at p.closed_at)) [
          | inl rp ↦
              absurd (false≢true (sym rq ∙ before_trans r.closed_at p.closed_at q.closed_at rp k))
          | inr rp ↦ simp (rq, rp, h, k)
        ]
      ]

  -- Two positions at the head may change places.
  ordered_swap :
      (p q : Position F) (rs : List (Position F))
      → (p.closed_at ≡ q.closed_at → p ≡ q)
      → ordered (p ∷ q ∷ rs) ≡ ordered (q ∷ p ∷ rs)
  unfolding ordered
  ordered_swap p q rs untied = elim (before_cases p.closed_at q.closed_at) [
    | inl same ↦ rw (untied same) refl
    | inr apart ↦ elim apart [
      | inl (h, k) ↦ insert_position_comm p q (ordered rs) h k
      | inr (k, h) ↦ sym (insert_position_comm q p (ordered rs) h k)
    ]
  ]

  mem_any_order : {ps qs : List (Position F)} (p : Position F) → Permᴰ ps qs → Memᴰ p ps → Memᴰ p qs
  mem_any_order p (Permᴰ.nil) m = m
  mem_any_order p (Permᴰ.cons e π) (Memᴰ.head same) = Memᴰ.head (same ∙ e)
  mem_any_order p (Permᴰ.cons e π) (Memᴰ.tail m) = Memᴰ.tail (mem_any_order p π m)
  mem_any_order p (Permᴰ.swap d e) (Memᴰ.head same) = Memᴰ.tail (Memᴰ.head (same ∙ d))
  mem_any_order p (Permᴰ.swap d e) (Memᴰ.tail (Memᴰ.head same)) = Memᴰ.head (same ∙ e)
  mem_any_order p (Permᴰ.swap d e) (Memᴰ.tail (Memᴰ.tail m)) = Memᴰ.tail (Memᴰ.tail m)
  mem_any_order p (Permᴰ.trans π ρ) m = mem_any_order p ρ (mem_any_order p π m)

  ordered_any_order :
      {ps qs : List (Position F)} → Permᴰ ps qs → IsUntied ps → ordered ps ≡ ordered qs
  unfolding ordered
  ordered_any_order (Permᴰ.nil) untied = refl
  ordered_any_order (Permᴰ.cons {a = p} e π) untied =
      rw (sym e, ordered_any_order π (λ q r i j. untied q r (Memᴰ.tail i) (Memᴰ.tail j))) refl
  ordered_any_order (Permᴰ.swap {a = p} {b = q} {l = rs} d e) untied =
      rw (sym d, sym e)
        (ordered_swap p q rs (untied p q (Memᴰ.head refl) (Memᴰ.tail (Memᴰ.head refl))))
  ordered_any_order (Permᴰ.trans π ρ) untied =
      ordered_any_order π untied
      ∙ ordered_any_order ρ (λ p q i j.
        untied p q (mem_any_order p (Permᴰ.symm π) i) (mem_any_order q (Permᴰ.symm π) j))

module _ {F : Type 0} ⦃fl : Float64 F⦄ where
  -- Positions of which no two different ones were closed at the same time have one summary, in
  -- whatever order they are given.
  pub compute_summary_any_order :
      (day_name : Option ℕ → String) (ps qs : List (Position F))
      → Permᴰ ps qs
      → IsUntied ps
      → compute_summary day_name ps ≡ compute_summary day_name qs
  unfolding compute_summary
  compute_summary_any_order day_name ps qs π untied = rw (ordered_any_order π untied) refl
