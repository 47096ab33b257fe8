-- ===== src/Scout/TickStore/Slices.antt =====
-- Lists cut in two at an index, as the ring buffer cuts its array at the write position.
use Prim.Native.Nat.add
use native.Mathlib.Decide.{dec_lt}
use navier_stocks.Base.{
  ℕ, zero, suc, ◌+◌, ◌-◌, ◌≤◌, ◌<◌, ◌≡◌, refl, ap, List, [], ◌∷◌, ◌++◌, arith, length, get_or, set,
  take, drop, length-append, length-drop, ◌∙◌, ltb, if◌then◌else◌,
}

sub-zero : (i : ℕ) → i ≡ i - 0
sub-zero i = omega arith

sub_suc : (i n : ℕ) → suc i - suc n ≡ i - n
sub_suc i n = omega arith

module _ {A : Type 0} where
  pub take-suc-set :
      (xs : List A) (i : ℕ) (v : A)
      → i < length xs
      → take (suc i) (set xs i v) ≡ take i xs ++ v ∷ []
  take-suc-set [] i v h = elim h [ ]
  take-suc-set (x ∷ xs) zero v h = refl
  take-suc-set (x ∷ xs) (suc i) v h = ap (◌∷◌ x) (take-suc-set xs i v (omega arith))

  pub drop-suc-set : (xs : List A) (i : ℕ) (v : A) → drop (suc i) (set xs i v) ≡ drop (suc i) xs
  drop-suc-set [] i v = refl
  drop-suc-set (x ∷ xs) zero v = refl
  drop-suc-set (x ∷ xs) (suc i) v = drop-suc-set xs i v

  pub drop_cons :
      (xs : List A) (i : ℕ) (d : A) → i < length xs → drop i xs ≡ get_or xs i d ∷ drop (suc i) xs
  drop_cons [] i d h = elim h [ ]
  drop_cons (x ∷ xs) zero d h = refl
  drop_cons (x ∷ xs) (suc i) d h = drop_cons xs i d (omega arith)

  pub take_all : (xs : List A) (n : ℕ) → length xs ≤ n → take n xs ≡ xs
  take_all [] zero h = refl
  take_all [] (suc n) h = refl
  take_all (x ∷ xs) zero h = elim h [ ]
  take_all (x ∷ xs) (suc n) h = ap (◌∷◌ x) (take_all xs n (omega arith))

  pub drop_all : (xs : List A) (n : ℕ) → length xs ≤ n → drop n xs ≡ []
  drop_all [] zero h = refl
  drop_all [] (suc n) h = refl
  drop_all (x ∷ xs) zero h = elim h [ ]
  drop_all (x ∷ xs) (suc n) h = drop_all xs n (omega arith)

  pub get_or-drop : (xs : List A) (n i : ℕ) (d : A) → get_or (drop n xs) i d ≡ get_or xs (n + i) d
  get_or-drop xs zero i d = ap (λ k. get_or xs k d) (omega arith)
  get_or-drop [] (suc n) i d = refl
  get_or-drop (x ∷ xs) (suc n) i d = rw (add.suc n i) (get_or-drop xs n i d)

  pub get_or-take : (xs : List A) (n i : ℕ) (d : A) → i < n → get_or (take n xs) i d ≡ get_or xs i d
  get_or-take xs zero i d h = elim h [ ]
  get_or-take [] (suc n) i d h = refl
  get_or-take (x ∷ xs) (suc n) zero d h = refl
  get_or-take (x ∷ xs) (suc n) (suc i) d h = get_or-take xs n i d (omega arith)

  pub get_or-append :
      (xs ys : List A) (i : ℕ) (d : A)
      → get_or (xs ++ ys) i d
        ≡ (if ltb i (length xs) then get_or xs i d else get_or ys (i - length xs) d)
  get_or-append [] ys i d = ground (arith, ap (λ k. get_or ys k d) (sub-zero i))
  get_or-append (x ∷ xs) ys zero d = ground arith
  get_or-append (x ∷ xs) ys (suc i) d =
      ground (arith, get_or-append xs ys i d, ap (λ k. get_or ys k d) (sub_suc i (length xs)))

  pub drop-append : (k : ℕ) (xs ys : List A) → k ≤ length xs → drop k xs ++ ys ≡ drop k (xs ++ ys)
  drop-append zero xs ys h = refl
  drop-append (suc k) [] ys h = elim h [ ]
  drop-append (suc k) (x ∷ xs) ys h = drop-append k xs ys (omega arith)

  pub drop_one_more : (k : ℕ) (xs : List A) → drop 1 (drop k xs) ≡ drop (suc k) xs
  drop_one_more zero xs = refl
  drop_one_more (suc k) [] = refl
  drop_one_more (suc k) (x ∷ xs) = drop_one_more k xs

  pub drop_none : (xs : List A) (k : ℕ) → k ≡ 0 → drop k xs ≡ xs
  drop_none xs k h = rw h

  -- The last `n` of a list, or all of it.
  abbrev pub keep_last : ℕ → List A → List A
  keep_last n xs = drop (length xs - n) xs

  pub keep_last-append :
      (n : ℕ) (xs : List A) (y : A)
      → 0 < n
      → keep_last n (keep_last n xs ++ y ∷ []) ≡ keep_last n (xs ++ y ∷ [])
  keep_last-append n xs y h = elim (dec_lt (length xs) n) [
    | yes short ↦
        ap (keep_last n) (ap (λ zs. zs ++ y ∷ []) (drop_none xs (length xs - n) (omega arith)))
    | no long ↦
        let k = length xs - n in
        let e : length (drop k xs ++ y ∷ []) - n ≡ 1 =
          omega (arith, length-append (drop k xs) (y ∷ []), length-drop k xs) in
        let e' : length (xs ++ y ∷ []) - n ≡ suc k = omega (arith, length-append xs (y ∷ [])) in
        rw (e, e')
          (ap (drop 1) (drop-append k xs (y ∷ []) (omega arith)) ∙ drop_one_more k (xs ++ y ∷ []))
  ]
