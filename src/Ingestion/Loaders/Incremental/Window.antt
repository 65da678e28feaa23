-- ===== src/Ingestion/Loaders/Incremental/Window.antt =====
-- The fetch window of an incremental run (`calculate_fetch_window` of
-- ingestion/loaders/incremental.py).
use marketforge.Prelude.{
  ℕ, zero, suc, ◌+◌, ◌≤◌, ◌≡◌, ◌↔◌, refl, none, some, Option, ok, err, arith, ltb, if◌then◌else◌,
}
use marketforge.Prelude.Int.{pos, negsuc}
use marketforge.Ingestion.Values.{value_error}
use marketforge.Ingestion.Loaders.Incremental.{date_max, calculate_fetch_window}

-- From a checkpoint the window starts so that exactly the last `overlap` days up to the checkpoint
-- are fetched again, with no gap after it: the start plus the overlap is the day after the
-- checkpoint. The window ends at `through`, also where that lies before the start. It is refused
-- exactly when that start is no date.
pub calculate_fetch_window_from_checkpoint :
    (checkpoint : ℕ) (initial : Option ℕ) (through overlap from to : ℕ)
    → checkpoint ≤ date_max
    → (calculate_fetch_window (some checkpoint) initial through (pos overlap) ≡ ok (from, to))
      ↔ ((from + overlap ≡ checkpoint + 1) × (1 ≤ from) × (from ≤ date_max) × (to ≡ through))
unfolding calculate_fetch_window
calculate_fetch_window_from_checkpoint checkpoint initial through zero from to valid =
    (λ h. ground arith, λ h. ground arith)
calculate_fetch_window_from_checkpoint checkpoint initial through (suc n) from to valid =
    (λ h. ground arith, λ h. ground arith)

-- Without a checkpoint the window is from the initial start to `through`, which must not precede it,
-- and an initial start is required; a negative overlap is refused in every case.
pub calculate_fetch_window_first :
    (through overlap start : ℕ)
    → (calculate_fetch_window none (some start) through (pos overlap) ≡ (
        if ltb through start
        then err (value_error "through date must not precede fetch start")
        else ok (start, through)))
      × (calculate_fetch_window none none through (pos overlap)
          ≡ err (value_error "initial_start is required when no checkpoint exists"))
      × ((checkpoint initial : Option ℕ)
          → calculate_fetch_window checkpoint initial through (negsuc overlap)
            ≡ err (value_error "overlap_days must be non-negative"))
unfolding calculate_fetch_window
calculate_fetch_window_first through overlap start = (refl, refl, λ checkpoint initial. refl)
