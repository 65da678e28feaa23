-- ===== src/Ingestion/Sources/Tests.antt =====
-- Runs of the clients of providers (ingestion/sources/) over networks that fail.
use marketforge.Prelude.{
  ◌≡◌, ◌≢◌, refl, String, none, some, List, [], ◌∷◌, ok, length, arith, String_discrete,
}
use marketforge.Prelude.Int.{pos}
use marketforge.Ingestion.Values.{finite, nan}
use marketforge.Ingestion.Sources.Retries.{
  Answer, response, http_error, no_connection, is_retryable, Traffic,
}
use marketforge.Ingestion.Sources.HttpJson.{JsonRequest, Body, parsed, Codec, read_body, get_json}
use marketforge.Ingestion.Sources.HttpJson.Recovery.{Recovers, is_transient, get_json-Returned}
use marketforge.Ingestion.Sources.Tiingo.{
  Platform, Settings, PriceRequest, a_list, normalized, fetch_prices,
}
use marketforge.Ingestion.Sources.Tiingo.Added.{Bounds}
use marketforge.Ingestion.Sources.Tiingo.Bounds.{fetch_prices-Bounds}

abbrev codec : Codec String
codec = record {
  gunzip = λ b. parsed b;
  loads = λ b. parsed b;
  lower = λ s. s;
  urlencode = λ params. "a=b";
}

-- The first request meets a status 503, the second no connection, and the third is answered.
abbrev flaky : List JsonRequest → JsonRequest → Answer Body
flaky [] r = http_error 503 none
flaky (q ∷ []) r = no_connection "reset"
flaky (q ∷ s ∷ sent) r = response (record { bytes = "{}"; encoding = "" })

get_json-Returned_example :
    let out =
      get_json codec flaky "https://example.com" [] [] 2 (record { sent = []; sleeps = [] }) in
    (out.0 ≡ ok "{}") × (length out.1.sent ≡ 3) × (length out.1.sleeps ≡ 2)
unfolding Recovers is_transient read_body is_retryable String_discrete
get_json-Returned_example =
    get_json-Returned codec flaky "{}" "https://example.com" [] [] 2 2 (omega arith)
      (refl, (refl, (record { bytes = "{}"; encoding = "" }, refl, refl)))

abbrev platform : Platform
platform = record {
  environment = some "secret";
  strip = λ s. s;
  upper = λ s. s;
  text_of = λ v. "2026-01-02T00:00:00.000Z";
  float_of = λ s. none;
  decode = λ body. ok (a_list []);
}

abbrev settings : Settings
settings = record {
  start = 739600;
  end = 739620;
  api_key = none;
  max_retries = pos 2;
  backoff_seconds = finite (pos 5);
  max_backoff_seconds = finite (pos 40);
}

abbrev busy : List PriceRequest → PriceRequest → Answer String
busy sent r = http_error 429 (some "3")

abbrev no_traffic : Traffic PriceRequest
no_traffic = record { sent = []; sleeps = [] }

not_nan : finite (pos 40) ≢ nan
not_nan e = cc e

fetch_prices-Bounds_example :
    Bounds settings 2
      (length (normalized platform ("ABC" ∷ "DEF" ∷ [])))
      no_traffic
      (fetch_prices platform busy settings ("ABC" ∷ "DEF" ∷ []) no_traffic).1
fetch_prices-Bounds_example =
    fetch_prices-Bounds platform busy settings ("ABC" ∷ "DEF" ∷ []) 2 no_traffic refl not_nan
