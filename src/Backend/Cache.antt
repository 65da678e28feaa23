-- ===== src/Backend/Cache.antt =====
-- backend/services/cache.py: the TTL and LRU cache of query results. Each region under the lock is
-- one step, so a history of several threads is a list of steps; `compute` runs between two of them.
-- The clocks are read in whole ticks, and `values` is in the order of the OrderedDict, oldest first.
pub mod Bounded
pub mod Reads
use marketforge.Prelude.{
  ℕ, suc, ◌+◌, Bool, Option, none, some, List, [], ◌∷◌, ◌++◌, Result, ok, err, length, ltb, leb,
  ◌||◌, if◌then◌else◌,
}
use marketforge.Prelude.Dict.{lookup, remove}
use marketforge.Prelude.Int.{ℤ, pos, negsuc}

pub record QueryCache (K V : Type 0) : Type 0 where
  pub ttl : ℕ
  pub max_entries : ℕ
  pub values : List (K × (ℕ × V))
  pub hits : ℕ
  pub misses : ℕ
  pub evictions : ℕ
  pub hit_time : ℕ
  pub miss_time : ℕ

pub data CacheError : Type 0 where
  value_error : CacheError

-- `__init__`
unfoldable pub init : {K V : Type 0} → ℤ → ℕ → Result CacheError (QueryCache K V)
init (negsuc n) max_entries = err value_error
init (pos ttl) max_entries =
    if ltb max_entries 1
    then err value_error
    else ok (record {
      ttl = ttl;
      max_entries = max_entries;
      values = [];
      hits = 0;
      misses = 0;
      evictions = 0;
      hit_time = 0;
      miss_time = 0;
    })

pub record CacheStats : Type 0 where
  pub hits : ℕ
  pub misses : ℕ
  pub evictions : ℕ
  pub entries : ℕ

module _ {K V : Type 0} where
  -- `stats`, without the rates that are quotients of floats
  pub stats : QueryCache K V → CacheStats
  stats c = record {
    hits = c.hits;
    misses = c.misses;
    evictions = c.evictions;
    entries = length c.values;
  }

  -- `clear`
  pub clear : QueryCache K V → QueryCache K V
  clear c = record c { values = [] }

  -- `while len(self._values) > self.max_entries: self._values.popitem(last=False)`, and the count
  pub evict : ℕ → List (K × (ℕ × V)) → List (K × (ℕ × V)) × ℕ
  evict max_entries [] = ([], 0)
  evict max_entries (e ∷ values) =
      let (rest, n) = evict max_entries values in
      if ltb max_entries (length (e ∷ values)) then (rest, suc n) else (e ∷ values, 0)

module _ {K V : Type 0} (dec : Discrete K) where
  -- The first locked region of `get_or_compute`: the value on a hit.
  after_look : QueryCache K V → K → ℕ → ℕ → Option (ℕ × V) → QueryCache K V × Option V
  after_look c key now elapsed none = (record c { misses = c.misses + 1 }, none)
  after_look c key now elapsed (some (expires, value)) =
      if ltb now expires
      then (
        record c {
          values = remove dec key c.values ++ (key, (expires, value)) ∷ [];
          hits = c.hits + 1;
          hit_time = c.hit_time + elapsed;
        },
        some value,
      )
      else (record c { values = remove dec key c.values; misses = c.misses + 1 }, none)

  pub look : QueryCache K V → K → ℕ → ℕ → QueryCache K V × Option V
  unfolding after_look
  look c key now elapsed = after_look c key now elapsed (lookup dec key c.values)

  -- The second locked region: the computed value is stored at the end, and what is too much at the
  -- front goes.
  pub store : QueryCache K V → K → V → ℕ → ℕ → QueryCache K V
  store c key value now elapsed =
      let (kept, n) =
        evict c.max_entries (remove dec key c.values ++ (key, (now + c.ttl, value)) ∷ []) in
      record c { values = kept; evictions = c.evictions + n; miss_time = c.miss_time + elapsed }

  -- `get_or_compute` of one thread that is alone, with the value that `compute` returns
  pub get_or_compute : QueryCache K V → K → V → ℕ → ℕ → ℕ → QueryCache K V × V
  get_or_compute c key value now later elapsed =
      let (c', found) = look c key now elapsed in
      elim found [ none ↦ (store c' key value later elapsed, value) | some v ↦ (c', v) ]

pub data Step (K V : Type 0) : Type 0 where
  looks : K → ℕ → ℕ → Step K V
  stores : K → V → ℕ → ℕ → Step K V
  clears : Step K V

module _ {K V : Type 0} (dec : Discrete K) where
  pub step : QueryCache K V → Step K V → QueryCache K V
  step c (looks key now elapsed) = (look dec c key now elapsed).0
  step c (stores key value now elapsed) = store dec c key value now elapsed
  step c clears = clear c

  pub run : QueryCache K V → List (Step K V) → QueryCache K V
  run c [] = c
  run c (s ∷ steps) = run (step c s) steps
