-- ===== src/Ingestion/Sources/Tiingo.antt =====
-- ingestion/sources/tiingo.py: `fetch_prices` with what it calls. The environment, the network,
-- decoding and Python's text functions are arguments.
pub mod Added
pub mod Bounds
use Prim.Native.Char.{code}
use marketforge.Prelude.{
  ℕ, zero, suc, ◌+◌, String, String_discrete, Bool, true, false, ◌&&◌, ◌||◌, not, Option, none,
  some, List, [], ◌∷◌, ◌++◌, ◌<>◌, map, contains, Result, ok, err, ltb, ◌==◌, ite, if◌then◌else◌,
}
use marketforge.Prelude.Dict.{lookup}
use marketforge.Prelude.Int.{ℤ, pos, negsuc}
use marketforge.Prelude.Exec.{Exec, pure, raise, lift, ◌>>=◌, ◌>>◌}
use marketforge.Ingestion.Values.{Float, finite, Value, str, Row}
use marketforge.Ingestion.Ordering.{lt_float}
use marketforge.Ingestion.Loaders.Rows.{is_id_start}
use marketforge.Ingestion.Sources.Retries.{
  Answer, response, http_error, no_connection, broken, Verdict, finished, again, stopped, Traffic,
  is_retryable, doubled, least, not_negative, attempts,
}

-- ValueError, TiingoError by its reason, the UnboundLocalError after the loop, and any other exception
-- of a request, which passes through.
pub data TiingoError : Type 0 where
  value_error : String → TiingoError
  no_api_key : TiingoError
  missing_field : String → TiingoError
  authentication_failed : String → TiingoError
  http_status : String → ℕ → TiingoError
  http_status_after : String → ℕ → ℕ → TiingoError
  no_connection_after : String → ℕ → String → TiingoError
  malformed_json : String → String → TiingoError
  unexpected_payload : String → TiingoError
  unbound_payload : TiingoError
  passed_through : String → TiingoError

-- An element of the list that a payload is, and a payload
pub data Item : Type 0 where
  an_object : Row → Item
  other_item : Item

pub data Payload : Type 0 where
  a_list : List Item → Payload
  other_payload : Payload

pub record PriceRequest : Type 0 where
  pub ticker : String
  pub start : ℕ
  pub end : ℕ
  pub token : String

-- `os.getenv("TIINGO_API_KEY")`, `str.strip`, `str.upper`, `str`, `float` of a header, which may
-- raise ValueError, and the decoding of a body, which may raise UnicodeError or JSONDecodeError.
pub record Platform : Type 0 where
  pub environment : Option String
  pub strip : String → String
  pub upper : String → String
  pub text_of : Value → String
  pub float_of : String → Option Float
  pub decode : String → Result String Payload

-- The keyword arguments of `fetch_prices`.
pub record Settings : Type 0 where
  pub start : ℕ
  pub end : ℕ
  pub api_key : Option String
  pub max_retries : ℤ
  pub backoff_seconds : Float
  pub max_backoff_seconds : Float

-- A text or None that is not empty, as `or` and `not` take it.
given : Option String → Option String
given (some (String.◌∷◌ c s)) = some (String.◌∷◌ c s)
given o = none

or_given : Option String → Option String → Option String
or_given (some s) other = some s
or_given none other = other

-- `_token`
pub token_of : Platform → Option String → Result TiingoError String
unfolding given or_given
token_of platform explicit = elim (or_given (given explicit) (given platform.environment)) [
  | none ↦ err no_api_key
  | some token ↦ ok token
]

-- `s[:n]`
first_chars : ℕ → String → String
first_chars zero s = ""
first_chars (suc n) String.[] = ""
first_chars (suc n) (String.◌∷◌ c s) = String.◌∷◌ c (first_chars n s)

-- `payload[name]`, its KeyError as the TiingoError that it becomes
with_field : {A : Type 0} → String → Row → (Value → Result TiingoError A) → Result TiingoError A
with_field name row use_it = elim (lookup String_discrete name row) [
  | none ↦ err (missing_field name)
  | some v ↦ use_it v
]

-- `_canonical_price`
pub canonical_price : Platform → String → Row → Result TiingoError Row
unfolding with_field first_chars
canonical_price platform ticker row = with_field "date" row λ dated.
    with_field "open" row λ opening. with_field "high" row λ high. with_field "low" row λ low.
      with_field "close" row λ close. with_field "volume" row λ volume.
        let day = first_chars 10 (platform.text_of dated) in
        ok (
          ("symbol", str (platform.upper ticker))
          ∷ ("date", str day)
          ∷ ("open", opening)
          ∷ ("high", high)
          ∷ ("low", low)
          ∷ ("close", close)
          ∷ ("volume", volume)
          ∷ ("source_record_id", str (platform.upper ticker <> ":" <> day))
          ∷ [])

-- TICKER_PATTERN: ^[A-Za-z0-9][A-Za-z0-9.-]{0,31}$
is_ticker_rest : ℕ → String → Bool
is_ticker_rest room String.[] = true
is_ticker_rest zero (String.◌∷◌ c s) = false
is_ticker_rest (suc room) (String.◌∷◌ c s) =
    (is_id_start (code c) || (code c == b'.') || (code c == b'-')) && is_ticker_rest room s

pub is_ticker : String → Bool
unfolding is_ticker_rest
is_ticker String.[] = false
is_ticker (String.◌∷◌ c s) = is_id_start (code c) && is_ticker_rest 31 s

-- `tuple(dict.fromkeys(…))`: the first of equal names
from_keys : List String → List String → List String
from_keys seen [] = []
from_keys seen (name ∷ names) =
    let fresh = from_keys (name ∷ seen) names in
    let known = from_keys seen names in
    if contains String_discrete name seen then known else name ∷ fresh

pub normalized : Platform → List String → List String
unfolding from_keys
normalized platform tickers = from_keys [] (map (λ t. platform.upper (platform.strip t)) tickers)

-- The delay before the next attempt: the header's, if it is a number.
retry_delay : Platform → Float → Option String → ℕ → Float
retry_delay platform backoff none attempt = doubled backoff attempt
retry_delay platform backoff (some header) attempt = elim (platform.float_of header) [
  | none ↦ doubled backoff attempt
  | some delay ↦ delay
]

-- The error of a status that ends the attempts.
status_error : String → ℕ → ℕ → TiingoError
status_error ticker attempt code =
    if is_retryable code
    then http_status_after ticker (attempt + 1) code
    else if (code == 401) || (code == 403)
    then authentication_failed ticker
    else http_status ticker code

after_status :
    Platform → Settings → String → ℕ → ℕ → Option String → Bool → ℕ → Verdict TiingoError Payload
unfolding retry_delay status_error
after_status platform s ticker (suc left) attempt retry_after true code = again (
    least s.max_backoff_seconds
      (not_negative (retry_delay platform s.backoff_seconds retry_after attempt)))
after_status platform s ticker left attempt retry_after retryable code =
    stopped (status_error ticker attempt code)

after_decoding : String → Result String Payload → Verdict TiingoError Payload
after_decoding ticker (ok p) = finished p
after_decoding ticker (err m) = stopped (malformed_json ticker m)

-- One turn of the loop over the attempts, by how many may follow.
pub judge_prices :
    Platform → Settings → String → ℕ → ℕ → Answer String → Verdict TiingoError Payload
unfolding after_status after_decoding
judge_prices platform s ticker left attempt (response body) =
    after_decoding ticker (platform.decode body)
judge_prices platform s ticker left attempt (http_error code retry_after) =
    after_status platform s ticker left attempt retry_after (is_retryable code) code
judge_prices platform s ticker left attempt (broken m) = stopped (passed_through m)
judge_prices platform s ticker (suc left) attempt (no_connection m) =
    again (least s.max_backoff_seconds (doubled s.backoff_seconds attempt))
judge_prices platform s ticker zero attempt (no_connection m) =
    stopped (no_connection_after ticker (attempt + 1) m)

-- `isinstance(payload, list) and all(isinstance(row, dict) for row in payload)`, and its records
pub price_rows : Platform → String → List Item → Result TiingoError (List Row)
price_rows platform ticker [] = ok []
price_rows platform ticker (an_object row ∷ items) = elim (canonical_price platform ticker row) [
  | err e ↦ err e
  | ok price ↦ elim (price_rows platform ticker items) [
    | err e ↦ err e
    | ok prices ↦ ok (price ∷ prices)
  ]
]
price_rows platform ticker (other_item ∷ items) = err (unexpected_payload ticker)

all_objects : List Item → Bool
all_objects [] = true
all_objects (an_object row ∷ items) = all_objects items
all_objects (other_item ∷ items) = false

pub read_payload : Platform → String → Payload → Result TiingoError (List Row)
unfolding all_objects
read_payload platform ticker (a_list items) =
    if all_objects items then price_rows platform ticker items else err (unexpected_payload ticker)
read_payload platform ticker other_payload = err (unexpected_payload ticker)

-- `max_retries`, where none of the settings is negative
pub check_settings : ℤ → Float → Float → Result TiingoError ℕ
check_settings (negsuc n) backoff longest = err (value_error "retry settings must be non-negative")
check_settings (pos n) backoff longest =
    if lt_float backoff (finite (pos 0)) || lt_float longest (finite (pos 0))
    then err (value_error "retry settings must be non-negative")
    else ok n

some_ticker : List String → Result TiingoError (Unit {0})
some_ticker [] = err (value_error "at least one ticker is required")
some_ticker (t ∷ ts) = ok tt

in_order : Settings → Result TiingoError (Unit {0})
in_order s = if ltb s.end s.start then err (value_error "end must not precede start") else ok tt

module _ (platform : Platform) (network : List PriceRequest → PriceRequest → Answer String) where
  abbrev pub Fetch : Type 0 → Type 0
  Fetch A = Exec TiingoError (Traffic PriceRequest) A

  -- The body of the loop over the tickers.
  pub fetch_ticker : Settings → String → ℕ → String → Fetch (List Row)
  fetch_ticker s token retries ticker =
      if not (is_ticker ticker) then raise (value_error "invalid ticker") else do
        payload ←
            attempts network (judge_prices platform s ticker) unbound_payload
              (record { ticker = ticker; start = s.start; end = s.end; token = token }) retries 0
        lift (read_payload platform ticker payload)

  pub fetch_tickers : Settings → String → ℕ → List String → Fetch (List Row)
  fetch_tickers s token retries [] = pure []
  fetch_tickers s token retries (ticker ∷ tickers) = do
    rows ← fetch_ticker s token retries ticker
    rest ← fetch_tickers s token retries tickers
    pure (rows ++ rest)

  pub fetch_prices : Settings → List String → Fetch (List Row)
  unfolding some_ticker in_order
  fetch_prices s tickers = do
    lift (in_order s)
    retries ← lift (check_settings s.max_retries s.backoff_seconds s.max_backoff_seconds)
    token ← lift (token_of platform s.api_key)
    lift (some_ticker (normalized platform tickers))
    fetch_tickers s token retries (normalized platform tickers)
