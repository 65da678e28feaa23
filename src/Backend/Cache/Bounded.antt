-- ===== src/Backend/Cache/Bounded.antt =====
-- The size and the counters of the cache (backend/services/cache.py).
use Prim.Native.Nat.{min}
use marketforge.Prelude.{
  ap, ◌∙◌, Bool-cases, ℕ, suc, ◌+◌, ◌≤◌, ◌≡◌, refl, sym, subst, inl, inr, List, [], ◌∷◌, ◌++◌, ok,
  length, length-append, arith, In, Distinct, Distinct-snoc, Option, none, some, ite, ltb,
}
use marketforge.Prelude.Int.{ℤ, pos, negsuc}
use marketforge.Prelude.Dict.{lookup, remove, keys}
use marketforge.Backend.Cache.{
  QueryCache, init, stats, clear, evict, after_look, look, store, Step, looks, stores, clears, step,
  run,
}

module _ {K V : Type 0} where
  keys-append : (d e : List (K × (ℕ × V))) → keys (d ++ e) ≡ keys d ++ keys e
  keys-append [] e = refl
  keys-append (x ∷ d) e = ap (◌∷◌ x.0) (keys-append d e)

module _ {K V : Type 0} (dec : Discrete K) where
  length-remove-le : (k : K) (d : List (K × (ℕ × V))) → length (remove dec k d) ≤ length d
  unfolding remove
  length-remove-le k [] = omega arith
  length-remove-le k ((j, w) ∷ d) = ground (arith, length-remove-le k d)

  length-remove :
      (k : K) (d : List (K × (ℕ × V))) (v : ℕ × V)
      → lookup dec k d ≡ some v
      → suc (length (remove dec k d)) ≡ length d
  unfolding lookup remove
  length-remove k [] v h = cc h
  length-remove k ((j, w) ∷ d) v h = ground (arith, length-remove k d v)

  In-remove : (k j : K) (d : List (K × (ℕ × V))) → In j (keys (remove dec k d)) → In j (keys d)
  unfolding remove
  In-remove k j [] m = m
  In-remove k j ((i, w) ∷ d) m =
      elim (dec i k) as (λ b. In j (keys (ite b d ((i, w) ∷ remove dec k d))) → In j (i ∷ keys d)) [
        | yes p ↦ λ m. inr m
        | no p ↦ λ m. elim m [ inl e ↦ inl e | inr later ↦ inr (In-remove k j d later) ]
      ]
        m

  pub remove-Distinct :
      (k : K) (d : List (K × (ℕ × V)))
      → Distinct (keys d)
      → Distinct (keys (remove dec k d)) × (¬ In k (keys (remove dec k d)))
  unfolding remove
  remove-Distinct k [] h = (tt, λ m. m)
  remove-Distinct k ((j, w) ∷ d) h =
      elim (dec j k)
        as (λ b.
          Distinct (keys (ite b d ((j, w) ∷ remove dec k d)))
          × (¬ In k (keys (ite b d ((j, w) ∷ remove dec k d))))) [
            | yes p ↦ (h.1, λ m. h.0 (subst (λ x. In x (keys d)) (sym p) m))
            | no p ↦
                let (distinct, absent) = remove-Distinct k d h.1 in
                (
                  (λ m. h.0 (In-remove k j d m), distinct),
                  λ m. elim m [ inl e ↦ p (sym e) | inr later ↦ absent later ],
                )
          ]

  -- The entry at the end after the key's own entry went.
  touched-Distinct :
      (k : K) (v : ℕ × V) (d : List (K × (ℕ × V)))
      → Distinct (keys d)
      → Distinct (keys (remove dec k d ++ (k, v) ∷ []))
  touched-Distinct k v d h =
      let (distinct, absent) = remove-Distinct k d h in
      rw (keys-append (remove dec k d) ((k, v) ∷ []))
        (Distinct-snoc (keys (remove dec k d)) k distinct absent)

-- What `evict` drops is the oldest part of the entries, and no more than the limit asks for.
evict_lem :
    {K V : Type 0} (n : ℕ) (l : List (K × (ℕ × V)))
    → (dropped : List (K × (ℕ × V))) × (l ≡ dropped ++ (evict n l).0)
      × (length dropped ≡ (evict n l).1)
      × (length (evict n l).0 ≡ min n (length l))
unfolding evict
evict_lem n [] = ([], refl, refl, omega arith)
evict_lem n (e ∷ l) =
    let (dropped, split, count, size) = evict_lem n l in
    elim (Bool-cases (ltb n (suc (length l)))) [
      | inl over ↦ (e ∷ dropped, ground arith, ground arith, ground arith)
      | inr fits ↦ ([], ground arith, ground arith, ground arith)
    ]

Distinct-suffix : {A : Type 0} (xs ys : List A) → Distinct (xs ++ ys) → Distinct ys
Distinct-suffix [] ys h = h
Distinct-suffix (x ∷ xs) ys h = Distinct-suffix xs ys h.1

evict-Distinct :
    {K V : Type 0} (n : ℕ) (l : List (K × (ℕ × V)))
    → Distinct (keys l)
    → Distinct (keys (evict n l).0)
evict-Distinct n l h =
    let (dropped, split, _, _) = evict_lem n l in
    Distinct-suffix (keys dropped) (keys (evict n l).0)
      (subst Distinct (ap keys split ∙ keys-append dropped (evict n l).0) h)

pub record IsValid {K V : Type 0} (c : QueryCache K V) : Type 0 where
  pub bounded : length c.values ≤ c.max_entries
  pub distinct : Distinct (keys c.values)

module _ {K V : Type 0} (dec : Discrete K) where
  after_look-IsValid :
      (c : QueryCache K V) (k : K) (now elapsed : ℕ) (o : Option (ℕ × V))
      → lookup dec k c.values ≡ o
      → IsValid c
      → IsValid (after_look dec c k now elapsed o).0
  unfolding after_look
  after_look-IsValid c k now elapsed none found v = record {
    bounded = v.bounded;
    distinct = v.distinct;
  }
  after_look-IsValid c k now elapsed (some (expires, value)) found v =
      elim (Bool-cases (ltb now expires)) [
        | inl live ↦
            rw (live, after_look)
              (record {
                bounded = omega (
                  arith,
                  length-append (remove dec k c.values) ((k, (expires, value)) ∷ []),
                  length-remove dec k c.values (expires, value) found,
                  v.bounded,
                );
                distinct = touched-Distinct dec k (expires, value) c.values v.distinct;
              })
        | inr stale ↦
            rw (stale, after_look)
              (record {
                bounded = omega (arith, length-remove-le dec k c.values, v.bounded);
                distinct = (remove-Distinct dec k c.values v.distinct).0;
              })
      ]

  pub step-IsValid : (c : QueryCache K V) (s : Step K V) → IsValid c → IsValid (step dec c s)
  unfolding step look store clear
  step-IsValid c (looks k now elapsed) v = after_look-IsValid c k now elapsed _ refl v
  step-IsValid c (stores k value now elapsed) v =
      let touched = remove dec k c.values ++ (k, (now + c.ttl, value)) ∷ [] in
      let (dropped, split, count, size) = evict_lem c.max_entries touched in
      record {
        bounded = omega (arith, size);
        distinct =
            evict-Distinct c.max_entries touched
              (touched-Distinct dec k (now + c.ttl, value) c.values v.distinct);
      }
  step-IsValid c clears v = record { bounded = omega arith; distinct = tt }

  run-IsValid :
      (c : QueryCache K V) (steps : List (Step K V)) → IsValid c → IsValid (run dec c steps)
  unfolding run
  run-IsValid c [] v = v
  run-IsValid c (s ∷ steps) v = run-IsValid (step dec c s) steps (step-IsValid c s v)

  -- The lookups in a history.
  abbrev pub count_looks : List (Step K V) → ℕ
  count_looks [] = 0
  count_looks (looks k now elapsed ∷ steps) = suc (count_looks steps)
  count_looks (stores k value now elapsed ∷ steps) = count_looks steps
  count_looks (clears ∷ steps) = count_looks steps

  after_look-counts :
      (c : QueryCache K V) (k : K) (now elapsed : ℕ) (o : Option (ℕ × V))
      → (after_look dec c k now elapsed o).0.hits + (after_look dec c k now elapsed o).0.misses
        ≡ suc (c.hits + c.misses)
  unfolding after_look
  after_look-counts c k now elapsed none = omega arith
  after_look-counts c k now elapsed (some (expires, value)) = ground arith

  run-counts :
      (c : QueryCache K V) (steps : List (Step K V))
      → (run dec c steps).hits + (run dec c steps).misses ≡ c.hits + c.misses + count_looks steps
  unfolding run step look store clear
  run-counts c [] = omega arith
  run-counts c (looks k now elapsed ∷ steps) = omega (
    arith,
    run-counts (look dec c k now elapsed).0 steps,
    after_look-counts c k now elapsed (lookup dec k c.values),
  )
  run-counts c (stores k value now elapsed ∷ steps) =
      omega (arith, run-counts (store dec c k value now elapsed) steps)
  run-counts c (clears ∷ steps) = omega (arith, run-counts (clear c) steps)

  look-max :
      (c : QueryCache K V) (k : K) (now elapsed : ℕ) (o : Option (ℕ × V))
      → (after_look dec c k now elapsed o).0.max_entries ≡ c.max_entries
  unfolding after_look
  look-max c k now elapsed none = refl
  look-max c k now elapsed (some (expires, value)) = ground arith

  run-max :
      (c : QueryCache K V) (steps : List (Step K V)) → (run dec c steps).max_entries ≡ c.max_entries
  unfolding run step look store clear
  run-max c [] = refl
  run-max c (looks k now elapsed ∷ steps) =
      run-max (step dec c (looks k now elapsed)) steps
      ∙ look-max c k now elapsed (lookup dec k c.values)
  run-max c (stores k value now elapsed ∷ steps) =
      run-max (step dec c (stores k value now elapsed)) steps
  run-max c (clears ∷ steps) = run-max (step dec c clears) steps

  init-fields :
      (ttl : ℤ) (max_entries : ℕ) (c : QueryCache K V)
      → init ttl max_entries ≡ ok c
      → (c.values ≡ []) × (c.hits ≡ 0) × (c.misses ≡ 0) × (c.max_entries ≡ max_entries)
  unfolding init
  init-fields (negsuc n) max_entries c h = absurd (cc h)
  init-fields (pos ttl) max_entries c h = (ground arith, ground arith, ground arith, ground arith)

  -- Through any interleaving of locked regions from a new cache, the cache never holds more entries
  -- than its capacity, holds no key twice, and has counted each lookup as one hit or one miss.
  pub run_from_init :
      (ttl : ℤ) (max_entries : ℕ) (c : QueryCache K V) (steps : List (Step K V))
      → init ttl max_entries ≡ ok c
      → (length (run dec c steps).values ≤ max_entries)
        × Distinct (keys (run dec c steps).values)
        × ((stats (run dec c steps)).hits + (stats (run dec c steps)).misses ≡ count_looks steps)
  unfolding stats
  run_from_init ttl max_entries c steps h =
      let (none_held, no_hits, no_misses, limit) = init-fields ttl max_entries c h in
      let valid : IsValid c = record {
        bounded = subst (λ l. length l ≤ c.max_entries) (sym none_held) (omega arith);
        distinct = subst (λ (l : List (K × (ℕ × V))). Distinct (keys l)) (sym none_held) tt;
      } in
      let after = run-IsValid c steps valid in
      (
        omega (arith, after.bounded, run-max c steps, limit),
        after.distinct,
        omega (arith, run-counts c steps, no_hits, no_misses),
      )
