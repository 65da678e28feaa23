-- ===== src/Backend/Cache/Reads.antt =====
-- What a lookup finds (backend/services/cache.py).
use marketforge.Prelude.{
  ℕ, ◌+◌, ◌<◌, ◌≡◌, sym, inl, inr, List, [], ◌∷◌, ◌++◌, arith, In, Option, none, some, ltb,
  if◌then◌else◌,
}
use marketforge.Prelude.Dict.{lookup, remove, keys}
use marketforge.Backend.Cache.{QueryCache, evict, after_look, look, store}
use marketforge.Backend.Cache.Bounded.{IsValid, remove-Distinct}

module _ {K V : Type 0} (dec : Discrete K) where
  lookup-snoc :
      (k : K) (x : ℕ × V) (l : List (K × (ℕ × V)))
      → ¬ In k (keys l)
      → lookup dec k (l ++ (k, x) ∷ []) ≡ some x
  unfolding lookup
  lookup-snoc k x [] h = ground arith
  lookup-snoc k x ((j, w) ∷ l) h = elim (dec j k) [
    | yes p ↦ absurd (h (inl (sym p)))
    | no p ↦ ground (arith, lookup-snoc k x l (λ m. h (inr m)))
  ]

  -- The newest entry survives an eviction, whatever has to go.
  lookup-evict-snoc :
      (n : ℕ) (k : K) (x : ℕ × V) (l : List (K × (ℕ × V)))
      → 0 < n
      → ¬ In k (keys l)
      → lookup dec k (evict n (l ++ (k, x) ∷ [])).0 ≡ some x
  unfolding evict
  lookup-evict-snoc n k x [] pos h = unfold lookup in ground arith
  lookup-evict-snoc n k x ((j, w) ∷ l) pos h =
      ground (arith, lookup-evict-snoc n k x l pos (λ m. h (inr m)), lookup-snoc k x ((j, w) ∷ l) h)

  after_look-found :
      (c : QueryCache K V) (k : K) (now elapsed expires : ℕ) (value : V) (o : Option (ℕ × V))
      → o ≡ some (expires, value)
      → (after_look dec c k now elapsed o).1 ≡ (if ltb now expires then some value else none)
  unfolding after_look
  after_look-found c k now elapsed expires value o e = ground arith

  -- A value that was just stored is what a lookup of its key finds until its time to live is over,
  -- and from then on the lookup misses; the capacity has to be positive, and no other step comes
  -- between the two.
  pub look-store :
      (c : QueryCache K V) (k : K) (value : V) (stored now elapsed elapsed' : ℕ)
      → IsValid c
      → 0 < c.max_entries
      → (look dec (store dec c k value stored elapsed) k now elapsed').1
        ≡ (if ltb now (stored + c.ttl) then some value else none)
  unfolding look store
  look-store c k value stored now elapsed elapsed' v pos =
      after_look-found (store dec c k value stored elapsed) k now elapsed' (stored + c.ttl) value _
        (lookup-evict-snoc c.max_entries k (stored + c.ttl, value) (remove dec k c.values) pos
          (remove-Distinct dec k c.values v.distinct).1)
