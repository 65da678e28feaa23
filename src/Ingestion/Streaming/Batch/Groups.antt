-- ===== src/Ingestion/Streaming/Batch/Groups.antt =====
-- The hourly groups of a micro-batch and their files (ingestion/streaming/kafka.py).
use marketforge.Prelude.{
  ◌≡◌, refl, sym, subst, ◌∙◌, ap, ◌⊎◌, inl, inr, String, List, [], ◌∷◌, ◌++◌, append_assoc, In, All,
  Distinct, All-of_In, In-All, In-append, In-append_left, In-append_right, arith,
}
use marketforge.Prelude.Dict.{keys}
use marketforge.Ingestion.Streaming.{Event, StreamPath, path, StreamPath_discrete}
use marketforge.Ingestion.Streaming.Batch.{stored, path_of, add_event, group_events}

abbrev pub run_of : StreamPath → String
run_of (path day hour run_id) = run_id

-- The files' events are those of the one and those of the other.
pub stored-append :
    (fs gs : List (StreamPath × List Event)) → stored (fs ++ gs) ≡ stored fs ++ stored gs
unfolding stored
stored-append [] gs = refl
stored-append ((p, es) ∷ fs) gs =
    ap (λ l. es ++ l) (stored-append fs gs) ∙ sym (append_assoc es _ _)

keys-append : (fs gs : List (StreamPath × List Event)) → keys (fs ++ gs) ≡ keys fs ++ keys gs
keys-append [] gs = refl
keys-append (f ∷ fs) gs = ap (λ l. f.0 ∷ l) (keys-append fs gs)

-- Groups of one run: no path twice, and every path is the run's.
pub record AreGroups (run_id : String) (groups : List (StreamPath × List Event)) : Type 0 where
  pub distinct : Distinct (keys groups)
  pub of_run : All (λ p. run_of p ≡ run_id) (keys groups)

-- The first group takes the event or passes it on.
add_event-turn :
    (p r : StreamPath) (e : Event) (es : List Event) (groups : List (StreamPath × List Event))
    → ((r ≡ p) × (add_event p e ((r, es) ∷ groups) ≡ (r, es ++ e ∷ []) ∷ groups))
      ⊎ ((¬ (r ≡ p)) × (add_event p e ((r, es) ∷ groups) ≡ (r, es) ∷ add_event p e groups))
unfolding add_event
add_event-turn p r e es groups = elim (StreamPath_discrete r p) [
  | yes same ↦ inl (same, ground arith)
  | no differs ↦ inr (differs, ground arith)
]

In-keys-add_event :
    (q p : StreamPath) (e : Event) (groups : List (StreamPath × List Event))
    → In q (keys (add_event p e groups))
    → (q ≡ p) ⊎ In q (keys groups)
In-keys-add_event q p e [] h = unfold add_event in h
In-keys-add_event q p e ((r, es) ∷ groups) h = elim (add_event-turn p r e es groups) [
  | inl (same, eq) ↦ inr (subst (λ gs. In q (keys gs)) eq h)
  | inr (differs, eq) ↦ elim (subst (λ gs. In q (keys gs)) eq h) [
    | inl first ↦ inr (inl first)
    | inr later ↦ elim (In-keys-add_event q p e groups later) [
      | inl h ↦ inl h
      | inr h ↦ inr (inr h)
    ]
  ]
]

Distinct-add_event :
    (p : StreamPath) (e : Event) (groups : List (StreamPath × List Event))
    → Distinct (keys groups)
    → Distinct (keys (add_event p e groups))
Distinct-add_event p e [] d = unfold add_event in (λ m. m, tt)
Distinct-add_event p e ((r, es) ∷ groups) d = elim (add_event-turn p r e es groups) [
  | inl (same, eq) ↦ subst (λ gs. Distinct (keys gs)) (sym eq) d
  | inr (differs, eq) ↦
      subst (λ gs. Distinct (keys gs)) (sym eq)
        (
          λ m. elim (In-keys-add_event r p e groups m) [ inl h ↦ differs h | inr h ↦ d.0 h ],
          Distinct-add_event p e groups d.1,
        )
]

AreGroups-add_event :
    (run_id : String) (e : Event) (groups : List (StreamPath × List Event))
    → AreGroups run_id groups
    → AreGroups run_id (add_event (path_of run_id e) e groups)
unfolding path_of
AreGroups-add_event run_id e groups g = record {
  distinct = Distinct-add_event (path_of run_id e) e groups g.distinct;
  of_run =
      All-of_In (λ p. run_of p ≡ run_id) _
        (λ p m. elim (In-keys-add_event p (path_of run_id e) e groups m) [
          | inl h ↦ ap run_of h
          | inr h ↦ In-All (λ p. run_of p ≡ run_id) p (keys groups) g.of_run h
        ]);
}

-- The events of the groups are those that were there and the one added.
In-stored-add_event :
    (x : Event) (p : StreamPath) (e : Event) (groups : List (StreamPath × List Event))
    → (x ≡ e) ⊎ In x (stored groups)
    → In x (stored (add_event p e groups))
unfolding stored
In-stored-add_event x p e [] h = unfold add_event in h
In-stored-add_event x p e ((r, es) ∷ groups) h = elim (add_event-turn p r e es groups) [
  | inl (same, eq) ↦
      subst (λ gs. In x (stored gs)) (sym eq)
        (elim h [
          | inl new ↦ In-append_left x _ _ (In-append_right x es _ (inl new))
          | inr old ↦ elim (In-append x es _ old) [
            | inl here ↦ In-append_left x _ _ (In-append_left x es _ here)
            | inr later ↦ In-append_right x _ _ later
          ]
        ])
  | inr (differs, eq) ↦
      subst (λ gs. In x (stored gs)) (sym eq)
        (elim h [
          | inl new ↦ In-append_right x es _ (In-stored-add_event x p e groups (inl new))
          | inr old ↦ elim (In-append x es _ old) [
            | inl here ↦ In-append_left x es _ here
            | inr later ↦ In-append_right x es _ (In-stored-add_event x p e groups (inr later))
          ]
        ])
]

pub group_events-AreGroups :
    (run_id : String) (es : List Event) (groups : List (StreamPath × List Event))
    → AreGroups run_id groups
    → AreGroups run_id (group_events run_id es groups)
unfolding group_events
group_events-AreGroups run_id [] groups g = g
group_events-AreGroups run_id (e ∷ es) groups g =
    group_events-AreGroups run_id es _ (AreGroups-add_event run_id e groups g)

pub In-stored-group_events :
    (x : Event) (run_id : String) (es : List Event) (groups : List (StreamPath × List Event))
    → In x es ⊎ In x (stored groups)
    → In x (stored (group_events run_id es groups))
unfolding group_events
In-stored-group_events x run_id [] groups (inr h) = h
In-stored-group_events x run_id [] groups (inl h) = absurd h
In-stored-group_events x run_id (e ∷ es) groups (inl (inr h)) =
    In-stored-group_events x run_id es _ (inl h)
In-stored-group_events x run_id (e ∷ es) groups (inl (inl h)) =
    In-stored-group_events x run_id es _ (inr (In-stored-add_event x _ e groups (inl h)))
In-stored-group_events x run_id (e ∷ es) groups (inr h) =
    In-stored-group_events x run_id es _ (inr (In-stored-add_event x _ e groups (inr h)))
