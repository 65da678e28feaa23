-- ===== src/Ingestion/Sources/Retries/Delays.antt =====
-- The delays between attempts (ingestion/sources/http_json.py and tiingo.py).
use marketforge.Prelude.{ℕ, ◌≡◌, ◌≢◌, refl, true, false, arith}
use marketforge.Prelude.Int.{pos, negsuc}
use marketforge.Ingestion.Values.{Float, finite, pos_inf, neg_inf, nan}
use marketforge.Ingestion.Ordering.{lt_float, le_float}
use marketforge.Ingestion.Sources.Retries.{doubled, least, not_negative}

-- `0.0 <= delay <= longest`
unfoldable pub Within : Float → Float → Type 0
Within longest delay = (le_float (finite (pos 0)) delay ≡ true) × (le_float delay longest ≡ true)

pub least-Within :
    (v w : Float)
    → lt_float v (finite (pos 0)) ≡ false
    → v ≢ nan
    → lt_float w (finite (pos 0)) ≡ false
    → Within v (least v w)
unfolding Within least lt_float le_float
least-Within (finite a) (finite b) hv number hw = ground arith
least-Within (finite a) pos_inf hv number hw = ground arith
least-Within (finite a) neg_inf hv number hw = ground arith
least-Within (finite a) nan hv number hw = ground arith
least-Within pos_inf (finite b) hv number hw = ground arith
least-Within pos_inf pos_inf hv number hw = ground arith
least-Within pos_inf neg_inf hv number hw = ground arith
least-Within pos_inf nan hv number hw = ground arith
least-Within neg_inf w hv number hw = ground arith
least-Within nan w hv number hw = absurd (number refl)

pub doubled_sign :
    (v : Float) (n : ℕ)
    → lt_float v (finite (pos 0)) ≡ false
    → lt_float (doubled v n) (finite (pos 0)) ≡ false
unfolding doubled lt_float
doubled_sign (finite (pos m)) n h = ground arith
doubled_sign (finite (negsuc m)) n h = ground arith
doubled_sign pos_inf n h = refl
doubled_sign neg_inf n h = h
doubled_sign nan n h = refl

pub not_negative_sign : (v : Float) → lt_float (not_negative v) (finite (pos 0)) ≡ false
unfolding not_negative lt_float
not_negative_sign (finite z) = ground arith
not_negative_sign pos_inf = refl
not_negative_sign neg_inf = ground arith
not_negative_sign nan = ground arith
