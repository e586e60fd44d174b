-- ===== src/Database/Rows.antt =====
-- WHERE, ORDER BY and LIMIT on the rows of a table, the newest row of which is first.
use dante_api_systems.Base.{
  ℕ, zero, suc, ◌≡◌, ◌≢◌, ◌≤◌, inl, inr, refl, ap, Bool, true, ◌&&◌, Bool-cases, List, [], ◌∷◌,
  ◌++◌, length, Option, none, some, if◌then◌else◌, arith,
}

module _ {ℓ} {A : Type ℓ} where
  abbrev pub filter : (A → Bool) → List A → List A
  filter p [] = []
  filter p (x ∷ xs) = let rest = filter p xs in if p x then x ∷ rest else rest

  abbrev pub take : ℕ → List A → List A
  take zero xs = []
  take (suc n) [] = []
  take (suc n) (x ∷ xs) = x ∷ take n xs

  abbrev pub drop : ℕ → List A → List A
  drop zero xs = xs
  drop (suc n) [] = []
  drop (suc n) (x ∷ xs) = drop n xs

  -- The first row that passes a test.
  abbrev pub find : (A → Bool) → List A → Option A
  find p [] = none
  find p (x ∷ xs) = let rest = find p xs in if p x then some x else rest

  abbrev pub All : (A → Type 0) → List A → Type 0
  All P [] = Unit
  All P (x ∷ xs) = P x × All P xs

  pub All-append : (P : A → Type 0) (xs ys : List A) → All P (xs ++ ys) → All P xs × All P ys
  All-append P [] ys h = (tt, h)
  All-append P (x ∷ xs) ys (h, hs) = let (l, r) = All-append P xs ys hs in ((h, l), r)

  pub All-filter : (P : A → Type 0) (p : A → Bool) (xs : List A) → All P xs → All P (filter p xs)
  All-filter P p [] h = tt
  All-filter P p (x ∷ xs) (h, hs) = elim (Bool-cases (p x)) [
    | inl e ↦ rw e (h, All-filter P p xs hs)
    | inr e ↦ rw e (All-filter P p xs hs)
  ]

  pub filter-filter :
      (p q : A → Bool) (xs : List A) → filter (λ x. q x && p x) xs ≡ filter p (filter q xs)
  filter-filter p q [] = refl
  filter-filter p q (x ∷ xs) = elim (Bool-cases (q x)) [
    | inl e ↦ elim (Bool-cases (p x)) [
      | inl f ↦ rw (e, f) (ap (◌∷◌ x) (filter-filter p q xs))
      | inr f ↦ rw (e, f) (filter-filter p q xs)
    ]
    | inr e ↦ rw e (filter-filter p q xs)
  ]

  pub filter-true : (xs : List A) → filter (λ x. true) xs ≡ xs
  filter-true [] = refl
  filter-true (x ∷ xs) = ap (◌∷◌ x) (filter-true xs)

  pub length-filter-le : (p : A → Bool) (xs : List A) → length (filter p xs) ≤ length xs
  length-filter-le p [] = omega arith
  length-filter-le p (x ∷ xs) = ground (arith, length-filter-le p xs)

  -- A full page has a last row, and its table goes on after that.
  pub take-last :
      (n : ℕ) (xs : List A)
      → length (take (suc n) xs) ≡ suc n
      → (ys : List A) × (y : A) × (take (suc n) xs ≡ ys ++ y ∷ [])
        × (xs ≡ ys ++ y ∷ drop (suc n) xs)
  take-last n [] h = absurd (omega arith)
  take-last zero (x ∷ xs) h = ([], x, refl, refl)
  take-last (suc n) (x ∷ xs) h =
      let (ys, y, e, f) = take-last n xs (omega arith) in (x ∷ ys, y, ap (◌∷◌ x) e, ap (◌∷◌ x) f)

  -- A page that is not full is the rest of its table.
  pub take-all : (n : ℕ) (xs : List A) → length (take n xs) ≢ n → take n xs ≡ xs
  take-all zero xs h = absurd (h refl)
  take-all (suc n) [] h = refl
  take-all (suc n) (x ∷ xs) h = ap (◌∷◌ x) (take-all n xs (λ e. h (ap suc e)))
