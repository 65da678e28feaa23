-- ===== src/Backend/Tests.antt =====
-- A cache of two entries under three stores (backend/services/cache.py).
use marketforge.Prelude.{
  ℕ, ◌≡◌, refl, ◌+◌, ◌≤◌, String, String_discrete, List, [], ◌∷◌, ok, length, Distinct, ltb, some,
  none, if◌then◌else◌, arith,
}
use marketforge.Prelude.Int.{pos}
use marketforge.Prelude.Dict.{keys}
use marketforge.Backend.Cache.{
  QueryCache, init, stats, look, store, Step, looks, stores, clears, run,
}
use marketforge.Backend.Cache.Bounded.{IsValid, count_looks, run_from_init}
use marketforge.Backend.Cache.Reads.{look-store}

abbrev two_entries : QueryCache String ℕ
two_entries = record {
  ttl = 30;
  max_entries = 2;
  values = [];
  hits = 0;
  misses = 0;
  evictions = 0;
  hit_time = 0;
  miss_time = 0;
}

two_entries-init : init {K = String} {V = ℕ} (pos 30) 2 ≡ ok two_entries
unfolding init
two_entries-init = refl

two_entries-IsValid : IsValid two_entries
two_entries-IsValid = record { bounded = omega arith; distinct = tt }

abbrev steps : List (Step String ℕ)
steps =
    looks "a" 0 1
    ∷ looks "b" 0 1
    ∷ stores "a" 1 2 2
    ∷ stores "b" 2 3 2
    ∷ looks "a" 4 1
    ∷ stores "c" 3 5 1
    ∷ looks "b" 6 1
    ∷ clears
    ∷ []

run_from_init_example :
    (length (run String_discrete two_entries steps).values ≤ 2)
    × Distinct (keys (run String_discrete two_entries steps).values)
    × ((stats (run String_discrete two_entries steps)).hits
          + (stats (run String_discrete two_entries steps)).misses
        ≡ count_looks String_discrete steps)
run_from_init_example = run_from_init String_discrete (pos 30) 2 two_entries steps two_entries-init

look-store_example :
    (look String_discrete (store String_discrete two_entries "a" 7 10 1) "a" 20 1).1
    ≡ (if ltb 20 (10 + two_entries.ttl) then some 7 else none)
look-store_example =
    look-store String_discrete two_entries "a" 7 10 20 1 1 two_entries-IsValid (omega arith)
