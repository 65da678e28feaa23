-- ===== src/Ingestion/Loaders/Dedup/Tests.antt =====
-- Runs of the deduplication of ingestion/loaders/backfill.py on three rows.
use mathlib.Core.Bool.{false≢true}
use marketforge.Prelude.{
  ◌≡◌, refl, sym, ap, ◌+◌, inl, inr, List, [], ◌∷◌, ok, length, filter, contains, String_discrete,
  List_discrete,
}
use marketforge.Prelude.Dict.{lookup, insert}
use marketforge.Ingestion.Values.{Value, str, Value_discrete, Row}
use marketforge.Ingestion.Contracts.{pick, get_item, Value_list_discrete}
use marketforge.Ingestion.Contracts.Tests.{quotes, first_row}
use marketforge.Ingestion.Loaders.Dedup.{
  Existing, Deduplicated, deduplicate_rows, read_rows, verdict, value_fields,
}
use marketforge.Ingestion.Loaders.Dedup.Accounting.{
  deduplicate_rows_accounting, Extends, deduplicate_rows-Extends,
}
use marketforge.Ingestion.Loaders.Dedup.Replay.{deduplicate_rows_replay}
use marketforge.Ingestion.Loaders.Dedup.Fresh.{
  HasKeys, Unknown, deduplicate_rows-Unknown, read_rows-length,
}

abbrev second_row : Row
second_row = ("symbol", str "XYZ") ∷ ("source", str "feed") ∷ []

abbrev stored_row : Row
stored_row = ("symbol", str "OLD") ∷ ("source", str "feed") ∷ []

abbrev known : Existing
known = (str "OLD" ∷ [], str "OLD" ∷ str "feed" ∷ []) ∷ []

abbrev arriving : List Row
arriving = first_row ∷ stored_row ∷ second_row ∷ []

abbrev deduplicated : Deduplicated
deduplicated = record {
  new_rows = first_row ∷ second_row ∷ [];
  duplicate_rows = 1;
  existing =
      (str "OLD" ∷ [], str "OLD" ∷ str "feed" ∷ [])
      ∷ (str "ABC" ∷ [], str "ABC" ∷ str "feed" ∷ [])
      ∷ (str "XYZ" ∷ [], str "XYZ" ∷ str "feed" ∷ [])
      ∷ [];
}

arriving-deduplicate_rows : deduplicate_rows quotes arriving known ≡ ok deduplicated
unfolding deduplicate_rows verdict value_fields pick get_item Value_list_discrete lookup insert
    contains filter String_discrete List_discrete Value_discrete
arriving-deduplicate_rows = refl

deduplicate_rows_accounting_example :
    length deduplicated.new_rows + deduplicated.duplicate_rows ≡ length arriving
deduplicate_rows_accounting_example =
    deduplicate_rows_accounting quotes arriving known deduplicated arriving-deduplicate_rows

deduplicate_rows-Extends_example : Extends known deduplicated.existing
deduplicate_rows-Extends_example =
    deduplicate_rows-Extends quotes arriving known deduplicated arriving-deduplicate_rows

deduplicate_rows_replay_example :
    deduplicate_rows quotes arriving deduplicated.existing
    ≡ ok (record {
      new_rows = [];
      duplicate_rows = length arriving;
      existing = deduplicated.existing;
    })
deduplicate_rows_replay_example =
    deduplicate_rows_replay quotes arriving known deduplicated arriving-deduplicate_rows

deduplicate_rows-Unknown_example :
    (ks : List (List Value)) × HasKeys quotes deduplicated.new_rows ks × Unknown known ks
deduplicate_rows-Unknown_example =
    deduplicate_rows-Unknown quotes arriving known deduplicated arriving-deduplicate_rows

two_keys-HasKeys :
    HasKeys quotes (first_row ∷ second_row ∷ []) ((str "ABC" ∷ []) ∷ (str "XYZ" ∷ []) ∷ [])
unfolding pick get_item value_fields lookup filter contains String_discrete
two_keys-HasKeys = (
  (str "ABC" ∷ str "feed" ∷ [], record { key_of = refl; values_of = refl }),
  ((str "XYZ" ∷ str "feed" ∷ [], record { key_of = refl; values_of = refl }), tt),
)

two_keys-Unknown : Unknown known ((str "ABC" ∷ []) ∷ (str "XYZ" ∷ []) ∷ [])
unfolding lookup Value_list_discrete List_discrete Value_discrete String_discrete contains
two_keys-Unknown = record {
  distinct = (
    λ m. elim m [
      | inl e ↦
          false≢true (sym (ap (λ k. contains Value_list_discrete k ((str "ABC" ∷ []) ∷ [])) e))
      | inr n ↦ n
    ],
    (λ m. m, tt),
  );
  unknown = (refl, (refl, tt));
}

read_rows-length_example :
    (ex' : Existing) × (read_rows quotes (first_row ∷ second_row ∷ []) known ≡ ok ex')
    × (length ex' ≡ length known + length (first_row ∷ second_row ∷ []))
read_rows-length_example =
    read_rows-length quotes (first_row ∷ second_row ∷ []) ((str "ABC" ∷ []) ∷ (str "XYZ" ∷ []) ∷ [])
      known two_keys-HasKeys two_keys-Unknown
