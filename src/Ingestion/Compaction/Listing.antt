-- ===== src/Ingestion/Compaction/Listing.antt =====
-- The files of a partition and the others, as lists (ingestion/compaction.py).
use marketforge.Prelude.{
  ◌≡◌, inl, inr, refl, sym, ◌∙◌, String, true, false, not, Option-cases, some, List, [], ◌∷◌, ◌++◌,
  arith, contains, if_pos, if_neg, filter, Bool-cases, In→contains,
}
use marketforge.Prelude.Dict.{lookup, keys, lookup-filter, lookup-append}
use marketforge.Ingestion.Contracts.{is_empty}
use marketforge.Ingestion.Lake.{Artifact, Artifact_discrete, compact, Partition, Partition_discrete}
use marketforge.Ingestion.Compaction.{Place, Place_discrete, is_in, inside, outside}

is_in_compact : (q : Partition) (id : String) → is_in q (compact q id) ≡ true
unfolding is_in contains
is_in_compact q id = In→contains Partition_discrete q (q ∷ []) (inl refl)

pub inside-outside :
    {F : Type 0} (q : Partition) (xs : List (Artifact × F)) → inside q (outside q xs) ≡ []
unfolding inside outside filter
inside-outside q [] = refl
inside-outside q ((a, f) ∷ xs) = ground (arith, inside-outside q xs)

pub inside-snoc :
    {F : Type 0} (q : Partition) (id : String) (f : F) (xs : List (Artifact × F))
    → is_empty (inside q (xs ++ (compact q id, f) ∷ [])) ≡ false
unfolding inside filter
inside-snoc q id f [] = rw (is_in_compact q id) refl
inside-snoc q id f ((a, g) ∷ xs) = ground (arith, inside-snoc q id f xs)

pub contains_key :
    {V : Type 0} (k : Place) (v : V) (d : List (Place × V))
    → lookup Place_discrete k d ≡ some v
    → contains Place_discrete k (keys d) ≡ true
unfolding lookup contains
contains_key k v [] h = absurd (cc h)
contains_key k v ((j, w) ∷ d) h = elim (Place_discrete j k) [
  | yes e ↦ if_pos (Place_discrete j k) e _ _
  | no n ↦
      if_neg (Place_discrete j k) n _ _
      ∙ contains_key k v d (sym (if_neg (Place_discrete j k) n _ _) ∙ h)
]

-- Others and files together hold what was there.
pub lookup_regrouped :
    {F : Type 0} (q : Partition) (a : Artifact) (xs : List (Artifact × F))
    → lookup Artifact_discrete a (outside q xs ++ inside q xs) ≡ lookup Artifact_discrete a xs
unfolding inside outside
lookup_regrouped q a xs =
    let out = lookup-filter Artifact_discrete (λ b. not (is_in q b)) a xs in
    let ins = lookup-filter Artifact_discrete (is_in q) a xs in
    let both =
      lookup-append Artifact_discrete a (filter (λ f. not (is_in q f.0)) xs)
        (filter (λ f. is_in q f.0) xs) in
    both ∙ (elim (Bool-cases (is_in q a)) [
      | inl here ↦ rw (out, here, ins, here) refl
      | inr there ↦ elim (Option-cases (lookup Artifact_discrete a xs)) [
        | inl e ↦ rw (out, there, e, ins, there) refl
        | inr (v, e) ↦ rw (out, there, e) refl
      ]
    ])
