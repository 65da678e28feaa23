-- ===== src/Observability/Builds/Sorting.antt =====
-- What `sorted` (as observability/builds.py and warehouse/time_travel.py call it) keeps of a list.
use marketforge.Prelude.{◌≡◌, ◌⊎◌, inl, inr, true, false, Bool, List, [], ◌∷◌, In, if◌then◌else◌}
use marketforge.Observability.Builds.{insert_by, sorted}

module _ {A : Type 0} (before : A → A → Bool) where
  In_either : (x : A) (b : Bool) (xs ys : List A) → In x (if b then xs else ys) → In x xs ⊎ In x ys
  In_either x true xs ys m = inl m
  In_either x false xs ys m = inr m

  In_both : (x : A) (b : Bool) (xs ys : List A) → In x xs → In x ys → In x (if b then xs else ys)
  In_both x true xs ys m n = m
  In_both x false xs ys m n = n

  In-insert_by : (x y : A) (ys : List A) → In x (insert_by before y ys) → (x ≡ y) ⊎ In x ys
  unfolding insert_by
  In-insert_by x y [] m = m
  In-insert_by x y (z ∷ zs) m =
      elim (In_either x (before z y) (z ∷ insert_by before y zs) (y ∷ z ∷ zs) m) [
        | inl (inl e) ↦ inr (inl e)
        | inl (inr n) ↦ elim (In-insert_by x y zs n) [ inl e ↦ inl e | inr k ↦ inr (inr k) ]
        | inr n ↦ n
      ]

  In-insert_by_back : (x y : A) (ys : List A) → (x ≡ y) ⊎ In x ys → In x (insert_by before y ys)
  unfolding insert_by
  In-insert_by_back x y [] m = m
  In-insert_by_back x y (z ∷ zs) m =
      In_both x (before z y) (z ∷ insert_by before y zs) (y ∷ z ∷ zs)
        (elim m [
          | inl e ↦ inr (In-insert_by_back x y zs (inl e))
          | inr (inl e) ↦ inl e
          | inr (inr n) ↦ inr (In-insert_by_back x y zs (inr n))
        ])
        m

  pub In-sorted : (x : A) (xs : List A) → In x (sorted before xs) → In x xs
  unfolding sorted
  In-sorted x [] m = m
  In-sorted x (y ∷ ys) m = elim (In-insert_by x y (sorted before ys) m) [
    | inl e ↦ inl e
    | inr n ↦ inr (In-sorted x ys n)
  ]

  pub In-sorted_back : (x : A) (xs : List A) → In x xs → In x (sorted before xs)
  unfolding sorted
  In-sorted_back x [] m = m
  In-sorted_back x (y ∷ ys) (inl e) = In-insert_by_back x y (sorted before ys) (inl e)
  In-sorted_back x (y ∷ ys) (inr m) =
      In-insert_by_back x y (sorted before ys) (inr (In-sorted_back x ys m))
