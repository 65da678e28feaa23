-- ===== src/Ingestion/Sources/HttpJson/Recovery.antt =====
-- `get_json` (ingestion/sources/http_json.py) over a network that fails for a while.
use marketforge.Prelude.{
  ℕ, zero, suc, ◌+◌, ◌≤◌, ◌≡◌, refl, true, false, Bool, String, List, [], ◌∷◌, ok, Result, arith,
  length,
}
use marketforge.Ingestion.Sources.Retries.{
  Answer, response, http_error, no_connection, broken, finished, again, Traffic, is_retryable,
  attempts,
}
use marketforge.Ingestion.Sources.Retries.Turns.{attempts-finished, attempts-again}
use marketforge.Ingestion.Sources.HttpJson.{
  JsonRequest, Body, Reading, parsed, malformed, escaped, JsonError, assertion, Codec, json_delay,
  target_of, merged, read_body, retry_or, after_reading, judge_json, get_json,
}

is_malformed : {P : Type 0} → Reading P → Bool
is_malformed (malformed m) = true
is_malformed r = false

-- What the loop takes up again while attempts are left: a status 429 or 5xx, no connection, or a
-- body that does not parse.
unfoldable pub is_transient : {P : Type 0} → Codec P → Answer Body → Bool
unfolding is_malformed
is_transient codec (response b) = is_malformed (read_body codec b)
is_transient codec (http_error code retry_after) = is_retryable code
is_transient codec (no_connection m) = true
is_transient codec (broken m) = false

after_reading-transient :
    {P : Type 0} (left n : ℕ) (r : Reading P)
    → is_malformed r ≡ true
    → after_reading (suc left) n r ≡ again (json_delay n)
unfolding after_reading retry_or is_malformed
after_reading-transient left n (parsed p) h = absurd (cc h)
after_reading-transient left n (malformed m) h = refl
after_reading-transient left n (escaped m) h = absurd (cc h)

judge_json-transient :
    {P : Type 0} (codec : Codec P) (left n : ℕ) (a : Answer Body)
    → is_transient codec a ≡ true
    → judge_json codec (suc left) n a ≡ again (json_delay n)
unfolding judge_json retry_or is_transient
judge_json-transient codec left n (response b) h =
    after_reading-transient left n (read_body codec b) h
judge_json-transient codec left n (http_error code header) h = rw h
judge_json-transient codec left n (no_connection m) h = refl
judge_json-transient codec left n (broken m) h = absurd (cc h)

judge_json-parsed :
    {P : Type 0} (codec : Codec P) (left n : ℕ) (a : Answer Body) (b : Body) (p : P)
    → a ≡ response b
    → read_body codec b ≡ parsed p
    → judge_json codec left n a ≡ finished p
unfolding judge_json after_reading
judge_json-parsed codec left n a b p e h = rw (e, judge_json, h)

module _ {P : Type 0} (codec : Codec P) (network : List JsonRequest → JsonRequest → Answer Body)
    (p : P) where
  -- After the requests sent so far, the network fails a number of times in a way that is taken up
  -- again, and then gives a body that reads as p.
  unfoldable pub Recovers : JsonRequest → ℕ → List JsonRequest → Type 0
  Recovers r zero sent = (b : Body) × (network sent r ≡ response b) × (read_body codec b ≡ parsed p)
  Recovers r (suc k) sent = (is_transient codec (network sent r) ≡ true) × Recovers r k (r ∷ sent)

  -- It returned p, with so many more requests and delays.
  Returned : ℕ → Traffic JsonRequest → Result JsonError P × Traffic JsonRequest → Type 0
  Returned k t out =
      (out.0 ≡ ok p)
      × (length out.1.sent ≡ suc k + length t.sent)
      × (length out.1.sleeps ≡ k + length t.sleeps)

  attempts-Returned :
      (r : JsonRequest) (k left n : ℕ) (t : Traffic JsonRequest)
      → k ≤ left
      → Recovers r k t.sent
      → Returned k t (attempts network (judge_json codec) assertion r left n t)
  unfolding Recovers Returned
  attempts-Returned r zero left n t few h =
      let (b, answered, reads) = h in
      rw
        (attempts-finished network (judge_json codec) assertion r left n t p
          (judge_json-parsed codec left n _ b p answered reads))
        (refl, omega arith, omega arith)
  attempts-Returned r (suc k) (suc left) n t few h =
      let (fails, later) = h in
      rw
        (attempts-again network (judge_json codec) assertion r left n t (json_delay n)
          (judge_json-transient codec left n _ fails))
        (let (a, b, c) = attempts-Returned r k left (n + 1) _ (omega (arith, few)) later in
          (a, omega (arith, b), omega (arith, c)))
  attempts-Returned r (suc k) zero n t few h = absurd (omega (arith, few))

  -- When the network fails at most as often as there are retries, each time in a way that is taken
  -- up again, and then gives a body that reads as a value, `get_json` returns this value, after one
  -- request for each failure and one more, and one delay for each failure.
  pub get_json-Returned :
      (url : String) (params headers : List (String × String)) (retries k : ℕ)
      → k ≤ retries
      → Recovers
          (record {
            target = target_of codec url params;
            headers = merged (("Accept", "application/json") ∷ []) headers;
          })
          k
          []
      → let out =
          get_json codec network url params headers retries (record { sent = []; sleeps = [] }) in
        (out.0 ≡ ok p) × (length out.1.sent ≡ suc k) × (length out.1.sleeps ≡ k)
  unfolding get_json Returned
  get_json-Returned url params headers retries k few h =
      let (a, b, c) = attempts-Returned _ k retries 0 (record { sent = []; sleeps = [] }) few h in
      (a, omega (arith, b), omega (arith, c))
