-- ===== src/Quality/Tests.antt =====
-- The accounting of a run that lost a row (quality/reconciliation.py).
use marketforge.Prelude.{◌≡◌, ◌↔◌}
use marketforge.Prelude.Int.{pos, ◌+ℤ◌}
use marketforge.Quality.Reconciliation.{Counts, reconcile_run, passed, reconcile_run-passed_iff}

abbrev lossy : Counts
lossy = record {
  fetched = pos 5;
  accepted = pos 3;
  rejected = pos 1;
  deduplicated = pos 1;
  written = pos 3;
  pre_write_rows = pos 10;
  post_write_rows = pos 12;
}

reconcile_run-passed_iff_example : ((reconcile_run lossy).status ≡ passed) ↔ (
    (lossy.fetched ≡ lossy.accepted +ℤ lossy.rejected +ℤ lossy.deduplicated)
    × (lossy.written ≡ lossy.accepted)
    × (lossy.post_write_rows ≡ lossy.pre_write_rows +ℤ lossy.accepted))
reconcile_run-passed_iff_example = reconcile_run-passed_iff lossy
