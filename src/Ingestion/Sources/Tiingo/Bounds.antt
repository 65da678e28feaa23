-- ===== src/Ingestion/Sources/Tiingo/Bounds.antt =====
-- What `fetch_prices` (ingestion/sources/tiingo.py) sends and how long it waits.
use marketforge.Prelude.{
  ℕ, zero, suc, ◌≡◌, ◌≢◌, refl, sym, ◌∙◌, subst, true, false, Bool, Bool-cases, inl, inr, Option,
  String, List, [], ◌∷◌, Result, ok, err, length,
}
use marketforge.Prelude.Int.{pos}
use marketforge.Prelude.Exec.{pure, raise, lift, >>=_cases}
use marketforge.Ingestion.Values.{Float, nan, Row}
use marketforge.Ingestion.Sources.Retries.{
  Answer, response, http_error, no_connection, broken, again, Traffic, is_retryable, doubled, least,
  not_negative, attempts,
}
use marketforge.Ingestion.Sources.Retries.Delays.{
  Within, least-Within, doubled_sign, not_negative_sign,
}
use marketforge.Ingestion.Sources.Retries.Bounded.{attempts-Attempted}
use marketforge.Ingestion.Sources.Tiingo.{
  TiingoError, Payload, PriceRequest, Platform, Settings, is_ticker, normalized, retry_delay,
  after_status, after_decoding, judge_prices, unbound_payload, fetch_ticker, fetch_tickers,
  check_settings, token_of, some_ticker, in_order, fetch_prices,
}
use marketforge.Ingestion.Sources.Tiingo.Added.{
  IsSound, check_settings-IsSound, pos_injective, Bounds, Bounds-none, Bounds-then, Bounds-weaken,
  Bounds-of_Attempted,
}

module _ (platform : Platform) (network : List PriceRequest → PriceRequest → Answer String)
    (s : Settings) (retries : ℕ) (sound : IsSound s retries)
    (number : s.max_backoff_seconds ≢ nan) where
  after_decoding_never :
      (ticker : String) (r : Result String Payload) (d : Float)
      → after_decoding ticker r ≡ again d
      → ⊥
  unfolding after_decoding
  after_decoding_never ticker (ok p) d h = cc h
  after_decoding_never ticker (err m) d h = cc h

  retry_delay_sign :
      (header : Option String) (k : ℕ)
      → Within s.max_backoff_seconds (
          least s.max_backoff_seconds
            (not_negative (retry_delay platform s.backoff_seconds header k)))
  retry_delay_sign header k = least-Within _ _ sound.longest number (not_negative_sign _)

  after_status-Within :
      (ticker : String) (left k code : ℕ) (header : Option String) (retryable : Bool) (d : Float)
      → after_status platform s ticker (suc left) k header retryable code ≡ again d
      → Within s.max_backoff_seconds d
  unfolding after_status
  after_status-Within ticker left k code header true d h =
      subst (Within s.max_backoff_seconds) (cc h) (retry_delay_sign header k)
  after_status-Within ticker left k code header false d h = absurd (cc h)

  judge_prices-Within :
      (ticker : String) (left k : ℕ) (a : Answer String) (d : Float)
      → judge_prices platform s ticker (suc left) k a ≡ again d
      → Within s.max_backoff_seconds d
  unfolding judge_prices
  judge_prices-Within ticker left k (response b) d h =
      absurd (after_decoding_never ticker (platform.decode b) d h)
  judge_prices-Within ticker left k (broken m) d h = absurd (cc h)
  judge_prices-Within ticker left k (http_error code header) d h =
      after_status-Within ticker left k code header (is_retryable code) d h
  judge_prices-Within ticker left k (no_connection m) d h =
      subst (Within s.max_backoff_seconds) (cc h) (
        least-Within s.max_backoff_seconds (doubled s.backoff_seconds k) sound.longest number
          (doubled_sign _ k sound.backoff))

  judge_prices-last :
      (ticker : String) (k : ℕ) (a : Answer String) (d : Float)
      → judge_prices platform s ticker zero k a ≡ again d
      → ⊥
  unfolding judge_prices after_status
  judge_prices-last ticker k (response b) d h = after_decoding_never ticker (platform.decode b) d h
  judge_prices-last ticker k (http_error code header) d h = cc h
  judge_prices-last ticker k (no_connection m) d h = cc h
  judge_prices-last ticker k (broken m) d h = cc h

  fetch_ticker-Bounds :
      (token ticker : String) (t : Traffic PriceRequest)
      → Bounds s retries 1 t (fetch_ticker platform network s token retries ticker t).1
  unfolding fetch_ticker lift raise
  fetch_ticker-Bounds token ticker t = elim (Bool-cases (is_ticker ticker)) [
    | inl good ↦
        let r : PriceRequest = record {
          ticker = ticker;
          start = s.start;
          end = s.end;
          token = token;
        } in
        let h =
          attempts-Attempted (Within s.max_backoff_seconds) r network
            (judge_prices platform s ticker) unbound_payload retries 0 t
            (judge_prices-Within ticker) (judge_prices-last ticker) in
        let b = Bounds-of_Attempted s retries r t _ good h in
        rw good (
          >>=_cases (λ out. Bounds s retries 1 t out.1)
            (attempts network (judge_prices platform s ticker) unbound_payload r retries 0) _ t
            (λ payload e. b) (λ x e. b))
    | inr bad ↦ rw bad (Bounds-none s retries 1 t)
  ]

  fetch_tickers-Bounds :
      (token : String) (tickers : List String) (t : Traffic PriceRequest)
      → Bounds s retries
          (length tickers)
          t
          (fetch_tickers platform network s token retries tickers t).1
  unfolding fetch_tickers pure
  fetch_tickers-Bounds token [] t = Bounds-none s retries 0 t
  fetch_tickers-Bounds token (ticker ∷ tickers) t =
      let first = fetch_ticker-Bounds token ticker t in
      >>=_cases (λ out. Bounds s retries (suc (length tickers)) t out.1)
        (fetch_ticker platform network s token retries ticker) _ t
        (λ rows e.
          let u = (fetch_ticker platform network s token retries ticker t).1 in
          let v = (fetch_tickers platform network s token retries tickers u).1 in
          let both =
            Bounds-then s retries (length tickers) t u v first
              (fetch_tickers-Bounds token tickers u) in
          >>=_cases (λ out. Bounds s retries (suc (length tickers)) t out.1)
            (fetch_tickers platform network s token retries tickers) _ u (λ rest f. both)
            (λ x f. both))
        (λ x e. Bounds-weaken s retries (length tickers) t _ first)

-- For a number of retries and a longest delay that is a number, `fetch_prices`, whatever the network
-- answers and however it ends, sends at most one request more than the retries for each different
-- ticker, each for a ticker that the pattern allows; and it sleeps at most as often as the retries
-- allow for each, from zero seconds to the longest delay.
pub fetch_prices-Bounds :
    (platform : Platform) (network : List PriceRequest → PriceRequest → Answer String)
    (s : Settings) (tickers : List String) (retries : ℕ) (t : Traffic PriceRequest)
    → s.max_retries ≡ pos retries
    → s.max_backoff_seconds ≢ nan
    → Bounds s retries
        (length (normalized platform tickers))
        t
        (fetch_prices platform network s tickers t).1
unfolding fetch_prices lift
fetch_prices-Bounds platform network s tickers retries t allowed number =
    let names = normalized platform tickers in
    let same = Bounds-none s retries (length names) t in
    let P = λ (out : Result TiingoError (List Row) × Traffic PriceRequest).
      Bounds s retries (length names) t out.1 in
    >>=_cases P (lift (in_order s)) _ t
      (λ u e.
        >>=_cases P (lift (check_settings s.max_retries s.backoff_seconds s.max_backoff_seconds)) _
          t
          (λ n checked.
            let sound = check_settings-IsSound s s.max_retries n refl checked in
            let counted : n ≡ retries = pos_injective n retries (sym sound.allowed ∙ allowed) in
            >>=_cases P (lift (token_of platform s.api_key)) _ t
              (λ token f.
                >>=_cases P (lift (some_ticker names)) _ t
                  (λ u g.
                    subst
                      (λ m.
                        Bounds s m (length names) t
                          (fetch_tickers platform network s token n names t).1)
                      counted
                      (fetch_tickers-Bounds platform network s n sound number token names t))
                  (λ x g. same))
              (λ x f. same))
          (λ x e. same))
      (λ x e. same)
