-- ===== src/Prelude/Dict.antt =====
-- Python's `dict` as the association list of its insertion order: assignment to a key that is
-- there changes the value in place, a new key goes to the end.
use marketforge.Prelude.{
  ◌≡◌, refl, sym, ap, subst, inl, inr, ite, Option, none, some, List, [], ◌∷◌, ◌++◌, map, arith, In,
  Distinct, Bool, filter, if◌then◌else◌,
}

module _ {K V : Type 0} (dec : Discrete K) where
  -- d.get(k)
  unfoldable pub lookup : K → List (K × V) → Option V
  lookup k [] = none
  lookup k ((j, v) ∷ d) = ite (dec j k) (some v) (lookup k d)

  -- d[k] = v
  unfoldable pub insert : K → V → List (K × V) → List (K × V)
  insert k v [] = (k, v) ∷ []
  insert k v ((j, w) ∷ d) = ite (dec j k) ((k, v) ∷ d) ((j, w) ∷ insert k v d)

  -- del d[k]
  unfoldable pub remove : K → List (K × V) → List (K × V)
  remove k [] = []
  remove k ((j, w) ∷ d) = ite (dec j k) d ((j, w) ∷ remove k d)

  pub lookup-insert :
      (k j : K) (v : V) (d : List (K × V))
      → lookup j (insert k v d) ≡ ite (dec k j) (some v) (lookup j d)
  unfolding lookup insert
  lookup-insert k j v [] = refl
  lookup-insert k j v ((i, w) ∷ d) = ground (arith, lookup-insert k j v d)

abbrev pub keys : {K V : Type 0} → List (K × V) → List K
keys = map (λ e. e.0)

module _ {K V : Type 0} (dec : Discrete K) where
  pub In-keys-insert :
      (k j : K) (v : V) (d : List (K × V))
      → In j (keys (insert dec k v d))
      → ¬ (k ≡ j)
      → In j (keys d)
  unfolding insert
  In-keys-insert k j v [] (inl e) n = absurd (n (sym e))
  In-keys-insert k j v [] (inr m) n = absurd m
  In-keys-insert k j v ((i, w) ∷ d) m n =
      ground (arith, λ (m : In j (keys (insert dec k v d))). In-keys-insert k j v d m n)

  pub insert-Distinct :
      (k : K) (v : V) (d : List (K × V)) → Distinct (keys d) → Distinct (keys (insert dec k v d))
  unfolding insert
  insert-Distinct k v [] h = (λ m. m, tt)
  insert-Distinct k v ((j, w) ∷ d) h =
      elim (dec j k) as (λ b. Distinct (keys (ite b ((k, v) ∷ d) ((j, w) ∷ insert dec k v d)))) [
        | yes p ↦ (λ m. h.0 (subst (λ x. In x (keys d)) (sym p) m), h.1)
        | no p ↦ (λ m. h.0 (In-keys-insert k j v d m (λ e. p (sym e))), insert-Distinct k v d h.1)
      ]

  pub lookup-none : (k : K) (d : List (K × V)) → lookup dec k d ≡ none → ¬ In k (keys d)
  unfolding lookup
  lookup-none k [] h m = absurd m
  lookup-none k ((j, w) ∷ d) h (inl e) = ground arith
  lookup-none k ((j, w) ∷ d) h (inr m) = lookup-none k d (ground arith) m

  -- A key that is not there goes to the end.
  pub insert_fresh :
      (k : K) (v : V) (d : List (K × V)) → ¬ In k (keys d) → insert dec k v d ≡ d ++ (k, v) ∷ []
  unfolding insert
  insert_fresh k v [] h = refl
  insert_fresh k v ((j, w) ∷ d) h = elim (dec j k) [
    | yes p ↦ absurd (h (inl (sym p)))
    | no p ↦ ground (arith, insert_fresh k v d (λ m. h (inr m)))
  ]

  pub not-In→lookup : (k : K) (d : List (K × V)) → ¬ In k (keys d) → lookup dec k d ≡ none
  unfolding lookup
  not-In→lookup k [] h = refl
  not-In→lookup k ((j, w) ∷ d) h = elim (dec j k) [
    | yes p ↦ absurd (h (inl (sym p)))
    | no p ↦ ground (arith, not-In→lookup k d (λ m. h (inr m)))
  ]

  -- A choice of keys
  pub lookup-filter :
      (P : K → Bool) (k : K) (d : List (K × V))
      → lookup dec k (filter (λ e. P e.0) d) ≡ (if P k then lookup dec k d else none)
  unfolding lookup filter
  lookup-filter P k [] = ground arith
  lookup-filter P k ((j, w) ∷ d) = elim (dec j k) [
    | yes e ↦ let same = ap P e in ground (arith, lookup-filter P k d)
    | no n ↦ ground (arith, lookup-filter P k d)
  ]

  -- `d` where it has the key, else `e`
  pub lookup-append :
      (k : K) (d e : List (K × V))
      → lookup dec k (d ++ e) ≡ elim (lookup dec k d) [ none ↦ lookup dec k e | some v ↦ some v ]
  unfolding lookup
  lookup-append k [] e = refl
  lookup-append k ((j, w) ∷ d) e = ground (arith, lookup-append k d e)
