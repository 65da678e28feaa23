-- ===== src/Quality/Reconciliation.antt =====
-- quality/reconciliation.py: the accounting of one ingestion run. A message is kept as its format
-- and the numbers that it prints.
use marketforge.Prelude.{◌≡◌, ◌↔◌, Bool, true, List, [], ◌∷◌, ◌++◌, arith, if◌then◌else◌}
use marketforge.Prelude.Int.{ℤ, ◌+ℤ◌, ◌-ℤ◌, eqb_ℤ, int_laws, eq_of_parts}

pub data Status : Type 0 where
  passed failed : Status

pub data Discrepancy : Type 0 where
  fetched_differs : ℤ → ℤ → ℤ → ℤ → Discrepancy
  written_differs : ℤ → ℤ → Discrepancy
  delta_differs : ℤ → ℤ → Discrepancy

pub record ReconciliationResult : Type 0 where
  pub status : Status
  pub source_records_fetched : ℤ
  pub records_accepted : ℤ
  pub records_rejected : ℤ
  pub records_deduplicated : ℤ
  pub records_written : ℤ
  pub pre_write_row_count : ℤ
  pub post_write_row_count : ℤ
  pub expected_row_delta : ℤ
  pub actual_row_delta : ℤ
  pub discrepancies : List Discrepancy

-- The keyword arguments of `reconcile_run`.
pub record Counts : Type 0 where
  pub fetched : ℤ
  pub accepted : ℤ
  pub rejected : ℤ
  pub deduplicated : ℤ
  pub written : ℤ
  pub pre_write_rows : ℤ
  pub post_write_rows : ℤ

-- `if a != b: discrepancies.append(d)`
note_unless : Bool → Discrepancy → List Discrepancy
note_unless same d = if same then [] else d ∷ []

status_of : List Discrepancy → Status
status_of [] = passed
status_of (d ∷ ds) = failed

find_discrepancies : Counts → List Discrepancy
unfolding note_unless
find_discrepancies c =
    let actual_delta = c.post_write_rows -ℤ c.pre_write_rows in
    note_unless (eqb_ℤ c.fetched (c.accepted +ℤ c.rejected +ℤ c.deduplicated))
      (fetched_differs c.fetched c.accepted c.rejected c.deduplicated)
    ++ (note_unless (eqb_ℤ c.written c.accepted) (written_differs c.written c.accepted)
        ++ note_unless (eqb_ℤ actual_delta c.accepted) (delta_differs actual_delta c.accepted))

pub reconcile_run : Counts → ReconciliationResult
unfolding find_discrepancies status_of
reconcile_run c = record {
  status = status_of (find_discrepancies c);
  source_records_fetched = c.fetched;
  records_accepted = c.accepted;
  records_rejected = c.rejected;
  records_deduplicated = c.deduplicated;
  records_written = c.written;
  pre_write_row_count = c.pre_write_rows;
  post_write_row_count = c.post_write_rows;
  expected_row_delta = c.accepted;
  actual_row_delta = c.post_write_rows -ℤ c.pre_write_rows;
  discrepancies = find_discrepancies c;
}

eqb_ℤ_sound : (a b : ℤ) → eqb_ℤ a b ≡ true → a ≡ b
eqb_ℤ_sound a b h = eq_of_parts a b (ground arith)

eqb_ℤ_refl : (a : ℤ) → eqb_ℤ a a ≡ true
eqb_ℤ_refl a = ground arith

sub_moves : (a b c : ℤ) → a -ℤ b ≡ c → a ≡ b +ℤ c
sub_moves a b c h = rw (← h) (omega int_laws)

sub_back : (a b c : ℤ) → a ≡ b +ℤ c → a -ℤ b ≡ c
sub_back a b c h = rw h (omega int_laws)

-- A run passes exactly when every fetched record is accepted, rejected or a duplicate, what was
-- accepted was written, and the canonical rows grew by the accepted ones.
pub reconcile_run-passed_iff :
    (c : Counts)
    → ((reconcile_run c).status ≡ passed) ↔ (
        (c.fetched ≡ c.accepted +ℤ c.rejected +ℤ c.deduplicated)
        × (c.written ≡ c.accepted)
        × (c.post_write_rows ≡ c.pre_write_rows +ℤ c.accepted))
unfolding reconcile_run
reconcile_run-passed_iff c = (
  λ h. (
    ground (arith, eqb_ℤ_sound c.fetched (c.accepted +ℤ c.rejected +ℤ c.deduplicated)),
    ground (arith, eqb_ℤ_sound c.written c.accepted),
    sub_moves _ _ _
        (ground (arith, eqb_ℤ_sound (c.post_write_rows -ℤ c.pre_write_rows) c.accepted)),
  ),
  λ h. simp (h.0, h.1, sub_back _ _ _ h.2, eqb_ℤ_refl),
)
