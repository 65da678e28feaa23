-- ===== src/Ingestion/Sources/HttpJson.antt =====
-- ingestion/sources/http_json.py: `get_json`. Decompression, decoding and the encoding of parameters
-- are arguments.
pub mod Recovery
use marketforge.Prelude.{
  ℕ, zero, suc, ◌^◌, ◌/◌, ◌*◌, String, String_discrete, Bool, true, false, Option, none, some, List,
  [], ◌∷◌, ◌<>◌, ite, if◌then◌else◌,
}
use marketforge.Prelude.Dict.{insert}
use marketforge.Prelude.Int.{pos}
use marketforge.Prelude.Exec.{Exec}
use marketforge.Ingestion.Values.{Float, finite}
use marketforge.Ingestion.Sources.Retries.{
  Answer, response, http_error, no_connection, broken, Verdict, finished, again, stopped, Traffic,
  is_retryable, doubled, least, attempts,
}

pub record JsonRequest : Type 0 where
  pub target : String
  pub headers : List (String × String)

-- The bytes of a response and its Content-Encoding header, or "".
pub record Body : Type 0 where
  pub bytes : String
  pub encoding : String

-- What reading a body gives: a value, a UnicodeError or JSONDecodeError with its text, or an exception
-- of decompression.
pub data Reading (P : Type 0) : Type 0 where
  parsed : P → Reading P
  malformed escaped : String → Reading P

-- `SourceHTTPError` with the status or the exception in its message; an exception that passes through;
-- and the AssertionError after the loop.
pub data JsonError : Type 0 where
  failed_status : ℕ → JsonError
  failed : String → JsonError
  passed_through : String → JsonError
  assertion : JsonError

-- `gzip.decompress`, `json.loads` of the bytes, `str.lower`, and `urlencode`
pub record Codec (P : Type 0) : Type 0 where
  pub gunzip : String → Reading String
  pub loads : String → Reading P
  pub lower : String → String
  pub urlencode : List (String × String) → String

-- The quarter of a second and two seconds.
abbrev quarter : Float
quarter = finite (pos (2 ^ 1072))

abbrev two_seconds : Float
two_seconds = finite (pos (2 ^ 1075))

pub json_delay : ℕ → Float
json_delay attempt = least two_seconds (doubled quarter attempt)

-- `if params else url`
pub target_of : {P : Type 0} → Codec P → String → List (String × String) → String
target_of codec url [] = url
target_of codec url (param ∷ params) = url <> "?" <> codec.urlencode (param ∷ params)

-- `{"Accept": "application/json", **(headers or {})}`
pub merged : List (String × String) → List (String × String) → List (String × String)
merged base [] = base
merged base ((name, value) ∷ headers) = merged (insert String_discrete name value base) headers

unfoldable pub load : {P : Type 0} → Codec P → Reading String → Reading P
load codec (parsed bytes) = codec.loads bytes
load codec (malformed m) = malformed m
load codec (escaped m) = escaped m

-- The body of the `with` statement and `json.loads`.
unfoldable pub read_body : {P : Type 0} → Codec P → Body → Reading P
unfolding load
read_body codec b =
    ite (String_discrete (codec.lower b.encoding) "gzip") (load codec (codec.gunzip b.bytes))
      (codec.loads b.bytes)

-- `if attempt < retries: sleep, continue`, else raise
pub retry_or : {P : Type 0} → ℕ → ℕ → JsonError → Verdict JsonError P
retry_or zero attempt e = stopped e
retry_or (suc left) attempt e = again (json_delay attempt)

after_reading : {P : Type 0} → ℕ → ℕ → Reading P → Verdict JsonError P
after_reading left attempt (parsed p) = finished p
after_reading left attempt (malformed m) = retry_or left attempt (failed m)
after_reading left attempt (escaped m) = stopped (passed_through m)

-- One turn of the loop, by how many attempts may follow.
pub judge_json : {P : Type 0} → Codec P → ℕ → ℕ → Answer Body → Verdict JsonError P
unfolding after_reading
judge_json codec left attempt (response b) = after_reading left attempt (read_body codec b)
judge_json codec left attempt (http_error code retry_after) =
    if is_retryable code
    then retry_or left attempt (failed_status code)
    else stopped (failed_status code)
judge_json codec left attempt (no_connection m) = retry_or left attempt (failed m)
judge_json codec left attempt (broken m) = stopped (passed_through m)

-- `get_json`, for a number of retries that is not negative
pub get_json :
    {P : Type 0}
    → Codec P
    → (List JsonRequest → JsonRequest → Answer Body)
    → String
    → List (String × String)
    → List (String × String)
    → ℕ
    → Exec JsonError (Traffic JsonRequest) P
get_json codec network url params headers retries =
    let request : JsonRequest = record {
      target = target_of codec url params;
      headers = merged (("Accept", "application/json") ∷ []) headers;
    } in
    attempts network (judge_json codec) assertion request retries 0
