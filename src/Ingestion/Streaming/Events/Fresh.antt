-- ===== src/Ingestion/Streaming/Events/Fresh.antt =====
-- What the selection of new events in ingestion/streaming/kafka.py guarantees.
use marketforge.Prelude.{
  ◌≡◌, refl, ◌⊎◌, inl, inr, ◌∙◌, sym, subst, ◌+◌, String, String_discrete, Bool, true, false, ◌||◌,
  List, [], ◌∷◌, length, In, All, Distinct, contains, contains→In, contains-false, unseen_before,
  not-In_of_unseen, Bool-cases, arith,
}
use marketforge.Ingestion.Streaming.{
  KafkaMessage, Coordinate, Coordinate_discrete, Event, coordinate_of,
}
use marketforge.Ingestion.Streaming.Events.{Selected, select_new, ids_of, coordinates_of}

-- The list has no repetition and avoids what was known.
abbrev pub IsNew : {A : Type 0} → List A → List A → Type 0
IsNew xs known = Distinct xs × All (λ x. ¬ In x known) xs

-- The event's identifier or coordinate is known or is that of an event of the list.
abbrev pub IsCovered : List String → List Coordinate → List Event → KafkaMessage × Event → Type 0
IsCovered ids coordinates events (m, e) =
    (In e.event_id ids ⊎ In (coordinate_of m) coordinates)
    ⊎ (In e.event_id (ids_of events) ⊎ In (coordinate_of m) (coordinates_of events))

-- Each event carries the coordinate of its message.
abbrev pub AreLocated : List (KafkaMessage × Event) → Type 0
AreLocated accepted =
    All (λ (p : KafkaMessage × Event). p.1.coordinate ≡ coordinate_of p.0) accepted

-- A selection of new events.
pub record Selection (accepted : List (KafkaMessage × Event)) (ids : List String)
    (coordinates : List Coordinate) (s : Selected) : Type 0 where
  pub new_ids : IsNew (ids_of s.new_events) ids
  pub new_coordinates : IsNew (coordinates_of s.new_events) coordinates
  pub counted : length s.new_events + s.duplicates ≡ length accepted
  pub covered : All (IsCovered ids coordinates s.new_events) accepted

IsNew-cons :
    {A : Type 0} (x : A) (xs known : List A)
    → ¬ In x known
    → IsNew xs (x ∷ known)
    → IsNew (x ∷ xs) known
IsNew-cons x xs known fresh h =
    ((not-In_of_unseen x known xs h.1, h.0), (fresh, unseen_before x known xs h.1))

IsCovered-cons :
    (ids : List String) (coordinates : List Coordinate) (events : List Event) (m : KafkaMessage)
    (e : Event) (p : KafkaMessage × Event)
    → e.coordinate ≡ coordinate_of m
    → IsCovered (e.event_id ∷ ids) (coordinate_of m ∷ coordinates) events p
    → IsCovered ids coordinates (e ∷ events) p
IsCovered-cons ids coordinates events m e p same (inl (inl (inl h))) = inr (inl (inl h))
IsCovered-cons ids coordinates events m e p same (inl (inl (inr h))) = inl (inl h)
IsCovered-cons ids coordinates events m e p same (inl (inr (inl h))) =
    inr (inr (inl (h ∙ sym same)))
IsCovered-cons ids coordinates events m e p same (inl (inr (inr h))) = inl (inr h)
IsCovered-cons ids coordinates events m e p same (inr (inl h)) = inr (inl (inr h))
IsCovered-cons ids coordinates events m e p same (inr (inr h)) = inr (inr (inr h))

All-map :
    {A : Type 0} (P Q : A → Type 0) (xs : List A) → ((x : A) → P x → Q x) → All P xs → All Q xs
All-map P Q [] f h = tt
All-map P Q (x ∷ xs) f h = (f x h.0, All-map P Q xs f h.1)

or-false : (a b : Bool) → a || b ≡ false → (a ≡ false) × (b ≡ false)
or-false true b h = ground arith
or-false false b h = (ground arith, ground arith)

or-true : (a b : Bool) → a || b ≡ true → (a ≡ true) ⊎ (b ≡ true)
or-true true b h = inl (ground arith)
or-true false b h = inr (ground arith)

-- For events that carry the coordinates of their messages: the new events have distinct
-- identifiers and distinct coordinates, none of them known before; the new events and the
-- duplicates are together as many as the accepted events; and the identifier or the coordinate of
-- every accepted event is known or that of a new event.
pub select_new-Selection :
    (accepted : List (KafkaMessage × Event)) (ids : List String) (coordinates : List Coordinate)
    → AreLocated accepted
    → Selection accepted ids coordinates (select_new accepted ids coordinates)
unfolding select_new
select_new-Selection [] ids coordinates h = record {
  new_ids = (tt, tt);
  new_coordinates = (tt, tt);
  counted = omega arith;
  covered = tt;
}
select_new-Selection ((m, e) ∷ accepted) ids coordinates h =
    let seen_id = contains String_discrete e.event_id ids in
    let seen_at = contains Coordinate_discrete (coordinate_of m) coordinates in
    elim (Bool-cases (seen_id || seen_at)) [
      | inl duplicate ↦
          let s = select_new-Selection accepted ids coordinates h.1 in
          rw (duplicate, select_new)
            (record {
              new_ids = s.new_ids;
              new_coordinates = s.new_coordinates;
              counted = omega (arith, s.counted);
              covered = (
                elim (or-true seen_id seen_at duplicate) [
                  | inl known ↦ inl (inl (contains→In String_discrete e.event_id ids known))
                  | inr known ↦
                      inl
                        (inr (contains→In Coordinate_discrete (coordinate_of m) coordinates known))
                ],
                s.covered,
              );
            })
      | inr fresh ↦
          let (no_id, no_place) = or-false seen_id seen_at fresh in
          let s =
            select_new-Selection accepted (e.event_id ∷ ids) (coordinate_of m ∷ coordinates) h.1 in
          let taken = select_new accepted (e.event_id ∷ ids) (coordinate_of m ∷ coordinates) in
          rw (fresh, select_new)
            (record {
              new_ids =
                  IsNew-cons e.event_id (ids_of taken.new_events) ids
                    (contains-false String_discrete e.event_id ids no_id) s.new_ids;
              new_coordinates =
                  subst (λ c. IsNew (c ∷ coordinates_of taken.new_events) coordinates) (sym h.0)
                    (IsNew-cons (coordinate_of m) (coordinates_of taken.new_events) coordinates
                      (contains-false Coordinate_discrete (coordinate_of m) coordinates no_place)
                      s.new_coordinates);
              counted = omega (arith, s.counted);
              covered = (
                inr (inl (inl refl)),
                All-map _ _ accepted
                    (λ p. IsCovered-cons ids coordinates taken.new_events m e p h.0) s.covered,
              );
            })
    ]
