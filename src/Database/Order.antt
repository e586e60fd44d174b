-- ===== src/Database/Order.antt =====
-- ORDER BY as an insertion sort. Rows that a strict order does not separate keep the order in which
-- they came into the table.
use dante_api_systems.Base.{
  suc, length, ◌≡◌, ◌⊎◌, inl, inr, refl, ap, sym, ◌∙◌, Bool, true, false, Bool-cases, List, [], ◌∷◌,
  ◌++◌, if◌then◌else◌, arith,
}
use dante_api_systems.Database.Rows.{filter, All, All-append, All-filter}

module _ {ℓ} {A : Type ℓ} (before : A → A → Bool) where
  abbrev pub insert : A → List A → List A
  insert x [] = x ∷ []
  insert x (y ∷ ys) = let rest = insert x ys in if before x y then x ∷ (y ∷ ys) else y ∷ rest

  abbrev pub order_by : List A → List A
  order_by [] = []
  order_by (x ∷ xs) = insert x (order_by xs)

  abbrev pub IsOrdered : List A → Type 0
  IsOrdered [] = Unit
  IsOrdered (x ∷ xs) = All (λ y. before x y ≡ true) xs × IsOrdered xs

  -- The order separates any two of some rows.
  abbrev Separates : A → A → Type 0
  Separates x y = (before x y ≡ true) ⊎ (before y x ≡ true)

  abbrev pub IsSeparated : List A → Type 0
  IsSeparated [] = Unit
  IsSeparated (x ∷ xs) = All (Separates x) xs × IsSeparated xs

  pub All-insert : (P : A → Type 0) (x : A) (ys : List A) → P x → All P ys → All P (insert x ys)
  All-insert P x [] p ps = (p, tt)
  All-insert P x (y ∷ ys) p (q, qs) = elim (Bool-cases (before x y)) [
    | inl e ↦ rw e (p, (q, qs))
    | inr e ↦ rw e (q, All-insert P x ys p qs)
  ]

  pub All-order_by : (P : A → Type 0) (xs : List A) → All P xs → All P (order_by xs)
  All-order_by P [] h = tt
  All-order_by P (x ∷ xs) (p, ps) = All-insert P x (order_by xs) p (All-order_by P xs ps)

  length-insert : (x : A) (ys : List A) → length (insert x ys) ≡ suc (length ys)
  length-insert x [] = refl
  length-insert x (y ∷ ys) = ground (arith, length-insert x ys)

  pub length-order_by : (xs : List A) → length (order_by xs) ≡ length xs
  length-order_by [] = refl
  length-order_by (x ∷ xs) = length-insert x (order_by xs) ∙ ap suc (length-order_by xs)

  module _ (trans : (x y z : A) → before x y ≡ true → before y z ≡ true → before x z ≡ true) where
    All-before :
        (x y : A) (ys : List A)
        → before x y ≡ true
        → All (λ z. before y z ≡ true) ys
        → All (λ z. before x z ≡ true) ys
    All-before x y [] h all = tt
    All-before x y (z ∷ zs) h (p, ps) = (trans x y z h p, All-before x y zs h ps)

    insert-IsOrdered :
        (x : A) (ys : List A) → All (Separates x) ys → IsOrdered ys → IsOrdered (insert x ys)
    insert-IsOrdered x [] s o = (tt, tt)
    insert-IsOrdered x (y ∷ ys) (s, ss) (o, os) = elim (Bool-cases (before x y)) [
      | inl e ↦ rw e ((e, All-before x y ys e o), (o, os))
      | inr e ↦
          let later : before y x ≡ true = ground arith in
          rw e (All-insert (λ z. before y z ≡ true) x ys later o, insert-IsOrdered x ys ss os)
    ]

    pub order_by-IsOrdered : (xs : List A) → IsSeparated xs → IsOrdered (order_by xs)
    order_by-IsOrdered [] h = tt
    order_by-IsOrdered (x ∷ xs) (s, ss) =
        insert-IsOrdered x (order_by xs) (All-order_by (Separates x) xs s)
          (order_by-IsOrdered xs ss)

    insert-front : (x : A) (ys : List A) → All (λ y. before x y ≡ true) ys → insert x ys ≡ x ∷ ys
    insert-front x [] h = refl
    insert-front x (y ∷ ys) (h, hs) = rw h refl

    filter-insert :
        (p : A → Bool) (x : A) (ys : List A)
        → IsOrdered ys
        → filter p (insert x ys) ≡ (if p x then insert x (filter p ys) else filter p ys)
    filter-insert p x [] o = refl
    filter-insert p x (y ∷ ys) (o, os) = elim (Bool-cases (before x y)) [
      | inl e ↦ rw e (
          ap (λ rest. if p x then rest else filter p (y ∷ ys))
            (sym (
              insert-front x (filter p (y ∷ ys))
                (All-filter (λ z. before x z ≡ true) p (y ∷ ys) (e, All-before x y ys e o)))))
      | inr e ↦ ground (arith, filter-insert p x ys os)
    ]

    -- Rows can be chosen before or after they are put in order.
    pub filter-order_by :
        (p : A → Bool) (xs : List A)
        → IsSeparated xs
        → filter p (order_by xs) ≡ order_by (filter p xs)
    filter-order_by p [] h = refl
    filter-order_by p (x ∷ xs) (s, ss) =
        let ordered = order_by-IsOrdered xs ss in
        let rest = filter-order_by p xs ss in
        let inserted = filter-insert p x (order_by xs) ordered in
        elim (Bool-cases (p x)) [
          | inl e ↦ rw e (rw e at inserted ∙ ap (insert x) rest)
          | inr e ↦ rw e (rw e at inserted ∙ rest)
        ]

    module _ (asym : (x y : A) → before x y ≡ true → before y x ≡ false) where
      filter-All :
          (x : A) (ys : List A) → All (λ y. before x y ≡ true) ys → filter (before x) ys ≡ ys
      filter-All x [] h = refl
      filter-All x (y ∷ ys) (h, hs) = rw h (ap (◌∷◌ y) (filter-All x ys hs))

      -- What comes after a row of an ordered table.
      pub filter-after :
          (irrefl : (x : A) → before x x ≡ false)
          → (xs : List A) (y : A) (ys : List A) → IsOrdered (xs ++ y ∷ ys)
          → filter (before y) (xs ++ y ∷ ys) ≡ ys
      filter-after irrefl [] y ys (o, os) = rw (irrefl y) (filter-All y ys o)
      filter-after irrefl (x ∷ xs) y ys (o, os) =
          let (_, (first, _)) = All-append (λ z. before x z ≡ true) xs (y ∷ ys) o in
          rw (asym x y first) (filter-after irrefl xs y ys os)
