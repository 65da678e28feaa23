-- ===== src/Ingestion/Sources/Retries.antt =====
-- The loop of bounded attempts in ingestion/sources/http_json.py and tiingo.py. The network is a
-- parameter: what it answers to a request, after the requests that were sent before. Delays are in
-- seconds, a finite one the integer multiple of 2^-1074 that it is.
pub mod Delays
pub mod Bounded
pub mod Turns
use marketforge.Prelude.{
  ℕ, zero, suc, ◌+◌, ◌-◌, ◌*◌, ◌^◌, Bool, true, false, ◌&&◌, ◌||◌, Option, none, some, String, List,
  [], ◌∷◌, length, ltb, leb, ◌==◌, if◌then◌else◌,
}
use marketforge.Prelude.Int.{ℤ, pos, negsuc}
use marketforge.Prelude.Exec.{Exec, pure, raise, gets, modify, ◌>>=◌, ◌>>◌}
use marketforge.Ingestion.Values.{Float, finite, pos_inf, neg_inf, nan}
use marketforge.Ingestion.Ordering.{lt_float}

-- What `urlopen` and the reading of its response give: a response, an HTTPError with its Retry-After
-- header, a URLError or TimeoutError, or an exception of any other type, such as IncompleteRead.
pub data Answer (Body : Type 0) : Type 0 where
  response : Body → Answer Body
  http_error : ℕ → Option String → Answer Body
  no_connection broken : String → Answer Body

-- What the body of the loop does with an answer: `return` or `break`, `continue` after a delay, or
-- `raise`
pub data Verdict (E P : Type 0) : Type 0 where
  finished : P → Verdict E P
  again : Float → Verdict E P
  stopped : E → Verdict E P

-- `exc.code == 429 or 500 <= exc.code < 600`
unfoldable pub is_retryable : ℕ → Bool
is_retryable code = (code == 429) || (leb 500 code && ltb code 600)

-- `seconds * (2 ** attempt)`
pub doubled : Float → ℕ → Float
doubled (finite (pos n)) attempt = finite (pos (n * 2 ^ attempt))
doubled (finite (negsuc n)) attempt = finite (negsuc (suc n * 2 ^ attempt - 1))
doubled f attempt = f

-- `min(v, w)`
pub least : Float → Float → Float
least v w = if lt_float w v then w else v

-- `max(0.0, v)`
pub not_negative : Float → Float
not_negative v = if lt_float (finite (pos 0)) v then v else finite (pos 0)

-- The requests that were sent and the delays that were slept, the last first
pub record Traffic (Req : Type 0) : Type 0 where
  pub sent : List Req
  pub sleeps : List Float

module _ {Req E : Type 0} where
  -- `urlopen(request)`
  pub send :
      {Body : Type 0} → (List Req → Req → Answer Body) → Req → Exec E (Traffic Req) (Answer Body)
  send network r = do
    answer ← gets (λ (t : Traffic Req). network t.sent r)
    modify (λ t. record t { sent = r ∷ t.sent })
    pure answer

  pub pause : Float → Exec E (Traffic Req) (Unit {0})
  pause delay = modify (λ (t : Traffic Req). record t { sleeps = delay ∷ t.sleeps })

  -- The end of one turn of the loop; `rest` is the turns after it.
  pub conclude : {P : Type 0} → Verdict E P → Exec E (Traffic Req) P → Exec E (Traffic Req) P
  conclude (finished p) rest = pure p
  conclude (stopped e) rest = raise e
  conclude (again delay) rest = do pause delay; rest

  -- The attempts from one on, with the number of those that may follow it. `past_end` is what the
  -- code after the loop raises.
  pub attempts :
      {Body P : Type 0}
      → (List Req → Req → Answer Body)
      → (ℕ → ℕ → Answer Body → Verdict E P)
      → E
      → Req
      → ℕ
      → ℕ
      → Exec E (Traffic Req) P
  attempts network judge past_end r zero attempt = do
    answer ← send network r
    conclude (judge zero attempt answer) (raise past_end)
  attempts network judge past_end r (suc left) attempt = do
    let rest = attempts network judge past_end r left (attempt + 1)
    answer ← send network r
    conclude (judge (suc left) attempt answer) rest
