-- ===== src/Ingestion/Streaming/Batch/Writes.antt =====
-- What the files and the quarantine hold after the writes of a micro-batch
-- (ingestion/streaming/kafka.py).
use marketforge.Prelude.{
  ◌≡◌, refl, sym, subst, ◌∙◌, ap, inl, inr, String, String_discrete, List, [], ◌∷◌, ◌++◌,
  append_assoc, append-nil, In, All, Distinct, Result, ok, err, none, some, All-of_In, In-All,
  contains, Bool, true, false, if_pos, Bool-cases, if◌then◌else◌,
}
use marketforge.Prelude.Dict.{lookup, insert, keys, insert_fresh, lookup-insert, In-keys-insert}
use marketforge.Prelude.Exec.{◌>>=◌, >>=_cases}
use marketforge.Ingestion.Values.{Exception, file_exists}
use marketforge.Ingestion.Streaming.{Event, Rejection, StreamPath, StreamPath_discrete, StreamStore}
use marketforge.Ingestion.Streaming.Batch.{
  write_groups, write_rejections, call_hook, outcome, StreamHook, StreamStage, before_write,
}
use marketforge.Ingestion.Streaming.Batch.Groups.{run_of}

-- No file of the run stands in the store.
abbrev pub IsFreshRun : String → List (StreamPath × List Event) → Type 0
IsFreshRun run_id files = All (λ p. ¬ (run_of p ≡ run_id)) (keys files)

-- What a step leaves alone.
pub record Leaves (s t : StreamStore) : Type 0 where
  pub committed : t.committed ≡ s.committed
  pub quarantine : t.quarantine ≡ s.quarantine

pub call_hook-state :
    (hook : StreamHook) (stage : StreamStage) (s : StreamStore) → (call_hook hook stage s).1 ≡ s
unfolding call_hook
call_hook-state hook stage s = elim (hook stage) as (λ o. (outcome o s).1 ≡ s) [
  | none ↦ refl
  | some e ↦ refl
]

abbrev store_group : StreamPath → List Event → StreamStore → StreamStore
store_group p es s = record s { files = insert StreamPath_discrete p es s.files }

-- What `write_groups` leaves: the acknowledgements and the quarantine as they were and, where it
-- returns, the files that were there followed by the groups.
abbrev pub Written :
    List (StreamPath × List Event)
    → StreamStore
    → Result Exception (Unit {0}) × StreamStore
    → Type 0
Written groups s (r, t) = Leaves s t × (r ≡ ok tt → t.files ≡ s.files ++ groups)

pub no_path :
    (run_id : String) (p : StreamPath) (files : List (StreamPath × List Event))
    → run_of p ≡ run_id
    → IsFreshRun run_id files
    → ¬ In p (keys files)
no_path run_id p files h fresh m = In-All (λ q. ¬ (run_of q ≡ run_id)) p (keys files) fresh m h

-- A path that the group's path precedes without repetition is not among the files after it.
avoids_after :
    (p : StreamPath) (es : List Event) (files : List (StreamPath × List Event))
    (ps : List StreamPath)
    → ¬ In p ps
    → ¬ In p (keys files)
    → All (λ q. ¬ In q (keys files)) ps
    → All (λ q. ¬ In q (keys (insert StreamPath_discrete p es files))) ps
avoids_after p es files [] alone fresh h = tt
avoids_after p es files (q ∷ ps) alone fresh h = (
  λ m. h.0 (In-keys-insert StreamPath_discrete p q es files m (λ e. alone (inl e))),
  avoids_after p es files ps (λ m. alone (inr m)) fresh h.1,
)

pub write_groups-Written :
    (hook : StreamHook) (groups : List (StreamPath × List Event)) (s : StreamStore)
    → Distinct (keys groups)
    → All (λ p. ¬ In p (keys s.files)) (keys groups)
    → Written groups s (write_groups hook groups s)
unfolding write_groups ◌>>=◌
write_groups-Written hook [] s d h =
    (record { committed = refl; quarantine = refl }, λ e. sym (append-nil s.files))
write_groups-Written hook ((p, es) ∷ groups) s d h =
    let same = call_hook-state hook (before_write p) s in
    >>=_cases (Written ((p, es) ∷ groups) s) (call_hook hook (before_write p)) _ s
      (λ u e.
        subst (λ t. Written ((p, es) ∷ groups) s (write_groups hook groups (store_group p es t)))
          (sym same)
          (let (kept, files) =
              write_groups-Written hook groups (store_group p es s) d.1
                (avoids_after p es s.files (keys groups) d.0 h.0 h.1) in
            (
              record { committed = kept.committed; quarantine = kept.quarantine },
              λ r.
                  files r
                  ∙ ap (λ fs. fs ++ groups) (insert_fresh StreamPath_discrete p es s.files h.0)
                  ∙ append_assoc s.files ((p, es) ∷ []) groups,
            )))
      (λ e raised. (
        record {
          committed = ap (λ (t : StreamStore). t.committed) same;
          quarantine = ap (λ (t : StreamStore). t.quarantine) same;
        },
        λ r. cc,
      ))

-- The record of a rejection stands in the quarantine file of the run.
abbrev pub IsQuarantined : String → List (String × List Rejection) → Rejection → Type 0
IsQuarantined run_id quarantine x =
    (rs : List Rejection) × (lookup String_discrete run_id quarantine ≡ some rs) × In x rs

abbrev pub Quarantined :
    String → List Rejection → StreamStore → Result Exception (Unit {0}) × StreamStore → Type 0
Quarantined run_id rejected s (r, t) =
    (t.files ≡ s.files)
    × (t.committed ≡ s.committed)
    × (r ≡ ok tt → All (IsQuarantined run_id t.quarantine) rejected)

abbrev quarantine_in : String → List Rejection → StreamStore → StreamStore
quarantine_in run_id rs s = record s { quarantine = insert String_discrete run_id rs s.quarantine }

write_rejections_cases :
    (run_id : String) (x : Rejection) (rejected : List Rejection) (s : StreamStore) (b : Bool)
    → contains String_discrete run_id (keys s.quarantine) ≡ b
    → write_rejections run_id (x ∷ rejected) s
      ≡ (if b then (err file_exists, s) else (ok tt, quarantine_in run_id (x ∷ rejected) s))
unfolding write_rejections ◌>>=◌
write_rejections_cases run_id x rejected s true h = rw h
write_rejections_cases run_id x rejected s false h = rw h

pub write_rejections-Quarantined :
    (run_id : String) (rejected : List Rejection) (s : StreamStore)
    → Quarantined run_id rejected s (write_rejections run_id rejected s)
unfolding write_rejections ◌>>=◌
write_rejections-Quarantined run_id [] s = (refl, refl, λ e. tt)
write_rejections-Quarantined run_id (x ∷ rejected) s =
    elim (Bool-cases (contains String_discrete run_id (keys s.quarantine))) [
      | inl taken ↦
          subst (Quarantined run_id (x ∷ rejected) s)
            (sym (write_rejections_cases run_id x rejected s true taken)) (refl, refl, λ e. cc)
      | inr free ↦
          subst (Quarantined run_id (x ∷ rejected) s)
            (sym (write_rejections_cases run_id x rejected s false free))
            (
              refl,
              refl,
              λ e.
                  All-of_In
                    (IsQuarantined run_id (quarantine_in run_id (x ∷ rejected) s).quarantine)
                    (x ∷ rejected)
                    λ y m. (
                      x ∷ rejected,
                      lookup-insert String_discrete run_id run_id (x ∷ rejected) s.quarantine
                          ∙ if_pos (String_discrete run_id run_id) refl _ _,
                      m,
                    ),
            )
    ]
