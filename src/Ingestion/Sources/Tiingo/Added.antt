-- ===== src/Ingestion/Sources/Tiingo/Added.antt =====
-- What the requests for tickers add to the traffic (ingestion/sources/tiingo.py).
use marketforge.Prelude.{
  ℕ, zero, suc, ◌+◌, ◌*◌, ◌≤◌, ◌≡◌, refl, sym, ap, ◌∙◌, true, false, Bool, ◌||◌, List, [], ◌++◌,
  Result, ok, err, arith, All, length, All-append, append_assoc, length-append, if◌then◌else◌,
}
use marketforge.Prelude.Int.{ℤ, pos, negsuc}
use marketforge.Ingestion.Values.{Float, finite}
use marketforge.Ingestion.Ordering.{lt_float}
use marketforge.Ingestion.Sources.Retries.{Traffic}
use marketforge.Ingestion.Sources.Retries.Delays.{Within}
use marketforge.Ingestion.Sources.Retries.Bounded.{Attempted, copies}
use marketforge.Ingestion.Sources.Tiingo.{
  TiingoError, PriceRequest, Settings, is_ticker, check_settings,
}

-- The settings that `fetch_prices` goes on with.
pub record IsSound (s : Settings) (retries : ℕ) : Type 0 where
  pub allowed : s.max_retries ≡ pos retries
  pub backoff : lt_float s.backoff_seconds (finite (pos 0)) ≡ false
  pub longest : lt_float s.max_backoff_seconds (finite (pos 0)) ≡ false

or_ok :
    (a b : Bool) (m n : ℕ) (e : TiingoError)
    → ◌≡◌ {A = Result TiingoError ℕ} (if a || b then err e else ok m) (ok n)
    → (a ≡ false) × (b ≡ false) × (m ≡ n)
or_ok true b m n e h = absurd (cc h)
or_ok false true m n e h = absurd (cc h)
or_ok false false m n e h = (refl, refl, cc h)

pub check_settings-IsSound :
    (s : Settings) (z : ℤ) (n : ℕ)
    → s.max_retries ≡ z
    → check_settings z s.backoff_seconds s.max_backoff_seconds ≡ ok n
    → IsSound s n
unfolding check_settings
check_settings-IsSound s (pos m) n e h =
    let (b, l, same) = or_ok _ _ m n _ h in
    record { allowed = e ∙ ap pos same; backoff = b; longest = l }
check_settings-IsSound s (negsuc m) n e h = absurd (cc h)

pub pos_injective : (m n : ℕ) → pos m ≡ pos n → m ≡ n
pos_injective m n h = cc h

-- What the requests for a number of tickers add to the traffic.
pub record Bounds (s : Settings) (retries tickers : ℕ) (t u : Traffic PriceRequest) : Type 0 where
  pub sent : List PriceRequest
  pub delays : List Float
  pub grown : u.sent ≡ sent ++ t.sent
  pub slept : u.sleeps ≡ delays ++ t.sleeps
  pub few : length sent ≤ tickers * (retries + 1)
  pub short : length delays ≤ tickers * retries
  pub valid : All (λ (r : PriceRequest). is_ticker r.ticker ≡ true) sent
  pub within : All (Within s.max_backoff_seconds) delays

pub Bounds-none : (s : Settings) (retries k : ℕ) (t : Traffic PriceRequest) → Bounds s retries k t t
Bounds-none s retries k t = record {
  sent = [];
  delays = [];
  grown = refl;
  slept = refl;
  few = omega arith;
  short = omega arith;
  valid = tt;
  within = tt;
}

pub Bounds-then :
    (s : Settings) (retries k : ℕ) (t u v : Traffic PriceRequest)
    → Bounds s retries 1 t u
    → Bounds s retries k u v
    → Bounds s retries (suc k) t v
Bounds-then s retries k t u v h g = record {
  sent = g.sent ++ h.sent;
  delays = g.delays ++ h.delays;
  grown = g.grown ∙ ap (λ xs. g.sent ++ xs) h.grown ∙ sym (append_assoc g.sent h.sent t.sent);
  slept =
      g.slept ∙ ap (λ xs. g.delays ++ xs) h.slept ∙ sym (append_assoc g.delays h.delays t.sleeps);
  few = rw (length-append g.sent h.sent) (grind (arith, h.few, g.few));
  short = rw (length-append g.delays h.delays) (grind (arith, h.short, g.short));
  valid = All-append _ g.sent h.sent g.valid h.valid;
  within = All-append _ g.delays h.delays g.within h.within;
}

pub Bounds-weaken :
    (s : Settings) (retries k : ℕ) (t u : Traffic PriceRequest)
    → Bounds s retries 1 t u
    → Bounds s retries (suc k) t u
Bounds-weaken s retries k t u h = Bounds-then s retries k t u u h (Bounds-none s retries k u)

All-copies : {A : Type 0} (P : A → Type 0) (n : ℕ) (a : A) → P a → All P (copies n a)
unfolding copies
All-copies P zero a h = tt
All-copies P (suc n) a h = (h, All-copies P n a h)

length-copies : {A : Type 0} (n : ℕ) (a : A) → length (copies n a) ≡ n
unfolding copies
length-copies zero a = refl
length-copies (suc n) a = ap suc (length-copies n a)

pub Bounds-of_Attempted :
    (s : Settings) (retries : ℕ) (r : PriceRequest) (t u : Traffic PriceRequest)
    → is_ticker r.ticker ≡ true
    → Attempted (Within s.max_backoff_seconds) r retries t u
    → Bounds s retries 1 t u
Bounds-of_Attempted s retries r t u good h = record {
  sent = copies (suc (length h.delays)) r;
  delays = h.delays;
  grown = h.requests;
  slept = h.slept;
  few = rw (length-copies (suc (length h.delays)) r) (grind (arith, h.few));
  short = grind (arith, h.few);
  valid = All-copies (λ (q : PriceRequest). is_ticker q.ticker ≡ true) _ r good;
  within = h.allowed;
}
