-- ===== src/Ingestion/Streaming/Batch/Durable.antt =====
-- The acknowledgement of a micro-batch (`consumer.commit` in ingestion/streaming/kafka.py).
use marketforge.Prelude.{
  ◌≡◌, refl, sym, subst, ◌∙◌, ap, ◌⊎◌, inl, inr, String, List, [], ◌∷◌, ◌++◌, map, In, All,
  In-append_left, In-append_right, Result, length, ◌+◌, ok, arith, All-of_In, In-All, In-map,
}
use marketforge.Prelude.Dict.{keys}
use marketforge.Prelude.Exec.{lift, ◌>>=◌, >>=_cases}
use marketforge.Ingestion.Values.{Datetime, Exception}
use marketforge.Ingestion.Streaming.{
  KafkaMessage, Coordinate, Event, Parsers, Rejection, StreamPath, StreamStore, MicroBatchResult,
  coordinate_of,
}
use marketforge.Ingestion.Streaming.Events.{
  parse_event, Parsed, parse_all, select_new, ids_of, coordinates_of,
}
use marketforge.Ingestion.Streaming.Events.Fresh.{IsCovered, select_new-Selection}
use marketforge.Ingestion.Streaming.Events.Sorted.{parse_all-Sorting, parsed-AreLocated, IsFiled}
use marketforge.Ingestion.Streaming.Batch.{
  stored, group_events, write_groups, write_rejections, call_hook, StreamHook,
  after_write_before_commit, commit, ingest,
}
use marketforge.Ingestion.Streaming.Batch.Groups.{
  run_of, stored-append, AreGroups, group_events-AreGroups, In-stored-group_events,
}
use marketforge.Ingestion.Streaming.Batch.Writes.{
  IsFreshRun, call_hook-state, no_path, write_groups-Written, IsQuarantined,
  write_rejections-Quarantined,
}

ok_injective :
    (a b : MicroBatchResult) → ◌≡◌ {A = Result Exception MicroBatchResult} (ok a) (ok b) → a ≡ b
ok_injective a b e = cc

-- A message that is safe to acknowledge: it is in the quarantine file of the run, or it is an event
-- whose identifier or coordinate the event files hold.
abbrev pub IsDurable : Parsers → Datetime → String → StreamStore → KafkaMessage → Type 0
IsDurable parsers started run_id t m =
    ((x : Rejection) × (x.message ≡ m) × IsQuarantined run_id t.quarantine x)
    ⊎ ((e : Event) × (parse_event parsers m started ≡ ok e)
        × (In e.event_id (ids_of (stored t.files))
            ⊎ In (coordinate_of m) (coordinates_of (stored t.files))))

In-map-back :
    {A B : Type 0} (f : A → B) (b : B) (xs : List A)
    → In b (map f xs)
    → (x : A) × In x xs × (f x ≡ b)
In-map-back f b (x ∷ xs) (inl e) = (x, inl refl, sym e)
In-map-back f b (x ∷ xs) (inr h) = let (y, m, e) = In-map-back f b xs h in (y, inr m, e)
In-map-back f b [] h = absurd h

In-map-mono :
    {A B : Type 0} (f : A → B) (b : B) (xs ys : List A)
    → ((x : A) → In x xs → In x ys)
    → In b (map f xs)
    → In b (map f ys)
In-map-mono f b xs ys sub h =
    let (x, m, e) = In-map-back f b xs h in subst (λ c. In c (map f ys)) e (In-map f x ys (sub x m))

-- What is covered by the events known and new is stored where all these are.
stored_of_covered :
    (known new all_stored : List Event) (m : KafkaMessage) (e : Event)
    → ((x : Event) → In x known → In x all_stored)
    → ((x : Event) → In x new → In x all_stored)
    → IsCovered (ids_of known) (coordinates_of known) new (m, e)
    → In e.event_id (ids_of all_stored) ⊎ In (coordinate_of m) (coordinates_of all_stored)
stored_of_covered known new all_stored m e old fresh (inl (inl h)) =
    inl (In-map-mono _ _ known all_stored old h)
stored_of_covered known new all_stored m e old fresh (inl (inr h)) =
    inr (In-map-mono _ _ known all_stored old h)
stored_of_covered known new all_stored m e old fresh (inr (inl h)) =
    inl (In-map-mono _ _ new all_stored fresh h)
stored_of_covered known new all_stored m e old fresh (inr (inr h)) =
    inr (In-map-mono _ _ new all_stored fresh h)

-- The message of a batch that was filed with a record that is quarantined, or with an event that is
-- covered and whose coverage is stored.
IsDurable-of_filed :
    (parsers : Parsers) (started : Datetime) (run_id : String) (p : Parsed) (known new : List Event)
    (t : StreamStore) (m : KafkaMessage)
    → All (λ (a : KafkaMessage × Event). parse_event parsers a.0 started ≡ ok a.1) p.accepted
    → All (IsCovered (ids_of known) (coordinates_of known) new) p.accepted
    → All (IsQuarantined run_id t.quarantine) p.rejected
    → ((x : Event) → In x known → In x (stored t.files))
    → ((x : Event) → In x new → In x (stored t.files))
    → IsFiled p m
    → IsDurable parsers started run_id t m
IsDurable-of_filed parsers started run_id p known new t m parsed covered quarantined old fresh
      (inl h) =
    let ((m', e), i, same) = In-map-back (λ (a : KafkaMessage × Event). a.0) m p.accepted h in
    inr (
      e,
      subst (λ x. parse_event parsers x started ≡ ok e) same
          (In-All (λ (a : KafkaMessage × Event). parse_event parsers a.0 started ≡ ok a.1) (m', e)
            p.accepted parsed i),
      subst
          (λ x.
            In e.event_id (ids_of (stored t.files))
            ⊎ In (coordinate_of x) (coordinates_of (stored t.files)))
          same
          (stored_of_covered known new (stored t.files) m' e old fresh (
            In-All (IsCovered (ids_of known) (coordinates_of known) new) (m', e) p.accepted covered
              i)),
    )
IsDurable-of_filed parsers started run_id p known new t m parsed covered quarantined old fresh
      (inr h) =
    let (x, i, same) = In-map-back (λ (r : Rejection). r.message) m p.rejected h in
    inl (x, same, In-All (IsQuarantined run_id t.quarantine) x p.rejected quarantined i)

-- The acknowledgements are as they were, or the batch was acknowledged and all of it is durable.
abbrev pub Acknowledged :
    Parsers → Datetime → String → List KafkaMessage → StreamStore → StreamStore → Type 0
Acknowledged parsers started run_id messages s t =
    (t.committed ≡ s.committed)
    ⊎ ((t.committed ≡ s.committed ++ messages) × All (IsDurable parsers started run_id t) messages)

fresh_paths :
    (run_id : String) (ps : List StreamPath) (files : List (StreamPath × List Event))
    → All (λ p. run_of p ≡ run_id) ps
    → IsFreshRun run_id files
    → All (λ p. ¬ In p (keys files)) ps
fresh_paths run_id [] files h fresh = tt
fresh_paths run_id (p ∷ ps) files h fresh =
    (no_path run_id p files h.0 fresh, fresh_paths run_id ps files h.1 fresh)

-- The last steps: the messages are acknowledged in a state in which all of them are durable.
All-IsDurable :
    (parsers : Parsers) (started : Datetime) (run_id : String) (messages : List KafkaMessage)
    (p : Parsed) (s t : StreamStore)
    → parse_all parsers started messages ≡ ok p
    → All (IsQuarantined run_id t.quarantine) p.rejected
    → t.files
      ≡ s.files
        ++ group_events run_id
            (select_new p.accepted
              (ids_of (stored s.files))
              (coordinates_of (stored s.files))).new_events
            []
    → All (IsDurable parsers started run_id t) messages
All-IsDurable parsers started run_id messages p s t e quarantined files =
    let known = stored s.files in
    let selected = select_new p.accepted (ids_of known) (coordinates_of known) in
    let groups = group_events run_id selected.new_events [] in
    let sorting = parse_all-Sorting parsers started messages p e in
    let selection =
      select_new-Selection p.accepted (ids_of known) (coordinates_of known)
        (parsed-AreLocated parsers started p.accepted sorting.parsed) in
    let split : stored t.files ≡ known ++ stored groups =
      ap stored files ∙ stored-append s.files groups in
    All-of_In (IsDurable parsers started run_id t) messages λ m i.
      IsDurable-of_filed parsers started run_id p known selected.new_events t m sorting.parsed
        selection.covered quarantined (λ x h. subst (In x) (sym split) (In-append_left x known _ h))
        (λ x h. subst (In x) (sym split) (
          In-append_right x known _
            (In-stored-group_events x run_id selected.new_events [] (inl h))))
        (In-All (IsFiled p) m messages sorting.filed i)

-- A run that returns has acknowledged the batch, and counts each message once.
abbrev Returned :
    List KafkaMessage → StreamStore → Result Exception MicroBatchResult × StreamStore → Type 0
Returned messages s (r, t) =
    (result : MicroBatchResult)
    → r ≡ ok result
    → (t.committed ≡ s.committed ++ messages)
      × (result.accepted_events + result.duplicate_events + result.quarantined_events
          ≡ length messages)

length-selected :
    (parsers : Parsers) (started : Datetime) (messages : List KafkaMessage) (p : Parsed)
    (ids : List String) (coordinates : List Coordinate)
    → parse_all parsers started messages ≡ ok p
    → length (select_new p.accepted ids coordinates).new_events
        + (select_new p.accepted ids coordinates).duplicates
        + length p.rejected
      ≡ length messages
length-selected parsers started messages p ids coordinates e =
    let sorting = parse_all-Sorting parsers started messages p e in
    let selection =
      select_new-Selection p.accepted ids coordinates
        (parsed-AreLocated parsers started p.accepted sorting.parsed) in
    omega (arith, sorting.counted, selection.counted)

module _ (parsers : Parsers) (hook : StreamHook) (run_id : String) (started : Datetime)
    (messages : List KafkaMessage) where
  -- An `ingest` acknowledges nothing, or the whole batch in a state in which each of its messages is
  -- durable: rejected and quarantined, or an event whose identifier or coordinate the event files
  -- hold. Where it returns, it has acknowledged the batch, and its counts of accepted, duplicate and
  -- quarantined events add up to the messages. The run is a new one: no file of it stands in the
  -- store yet.
  pub ingest-Acknowledged :
      (s : StreamStore)
      → IsFreshRun run_id s.files
      → Acknowledged parsers started run_id messages s
          (ingest parsers hook run_id started messages s).1
        × ((result : MicroBatchResult)
            → (ingest parsers hook run_id started messages s).0 ≡ ok result
            → ((ingest parsers hook run_id started messages s).1.committed
                ≡ s.committed ++ messages)
              × (result.accepted_events + result.duplicate_events + result.quarantined_events
                  ≡ length messages))
  unfolding ingest ◌>>=◌ commit
  ingest-Acknowledged s fresh =
      let P : Result Exception MicroBatchResult × StreamStore → Type 0 =
        λ o. Acknowledged parsers started run_id messages s o.1 × Returned messages s o in
      >>=_cases P (lift (parse_all parsers started messages)) _ s
        (λ p parsed.
          let q = write_rejections-Quarantined run_id p.rejected s in
          let s1 = (write_rejections run_id p.rejected s).1 in
          let known = stored s1.files in
          let selected = select_new p.accepted (ids_of known) (coordinates_of known) in
          let groups = group_events run_id selected.new_events [] in
          let are : AreGroups run_id groups =
            group_events-AreGroups run_id selected.new_events []
              (record { distinct = tt; of_run = tt }) in
          let w = write_groups-Written hook groups s1 are.distinct (
            fresh_paths run_id (keys groups) s1.files are.of_run
              (subst (IsFreshRun run_id) (sym q.0) fresh)) in
          >>=_cases P (write_rejections run_id p.rejected) _ s
            (λ u quarantined.
              >>=_cases P (write_groups hook groups) _ s1
                (λ u2 written.
                  let s2 = (write_groups hook groups s1).1 in
                  let same = call_hook-state hook after_write_before_commit s2 in
                  >>=_cases P (call_hook hook after_write_before_commit) _ s2
                    (λ u3 called.
                      let all_acknowledged =
                        ap (λ (t : StreamStore). t.committed ++ messages) same
                        ∙ ap (λ c. c ++ messages) (w.0.committed ∙ q.1) in
                      (
                        inr (
                          all_acknowledged,
                          All-IsDurable parsers started run_id messages p s1
                              (call_hook hook after_write_before_commit s2).1 parsed
                              (subst (λ d. All (IsQuarantined run_id d) p.rejected)
                                (sym (ap (λ (t : StreamStore). t.quarantine) same ∙ w.0.quarantine))
                                (q.2 quarantined))
                              (ap (λ (t : StreamStore). t.files) same ∙ w.1 written),
                        ),
                        λ r o. (
                          all_acknowledged,
                          subst
                              (λ (m : MicroBatchResult).
                                m.accepted_events + m.duplicate_events + m.quarantined_events
                                ≡ length messages)
                              (ok_injective _ r o)
                              (length-selected parsers started messages p (ids_of known)
                                (coordinates_of known) parsed),
                        ),
                      ))
                    (λ e raised. (
                      inl (ap (λ (t : StreamStore). t.committed) same ∙ w.0.committed ∙ q.1),
                      λ r o. cc,
                    )))
                (λ e raised. (inl (w.0.committed ∙ q.1), λ r o. cc)))
            (λ e raised. (inl q.1, λ r o. cc)))
        (λ e raised. (inl refl, λ r o. cc))
