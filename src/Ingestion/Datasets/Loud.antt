-- ===== src/Ingestion/Datasets/Loud.antt =====
-- The messages of the price rule (ingestion/contracts/prices.py) are not empty, so that a row passes
-- it only where it returns None.
use Prim.Native.String.append
use marketforge.Prelude.{
  ◌<>◌, ◌≡◌, ◌≢◌, Bool, true, false, Option, none, some, String, List, [], ◌∷◌, ok, err, ◌>>=◌,
  if◌then◌else◌,
}
use marketforge.Prelude.Int.{pos}
use marketforge.Ingestion.Values.{int, Row, Raises}
use marketforge.Ingestion.Contracts.{Message, rule_message, get_item, message_of}
use marketforge.Ingestion.Contracts.Accepted.{Passes}
use marketforge.Ingestion.Ordering.{at_most}
use marketforge.Ingestion.Datasets.{
  zero_value, price_ranges, unless, or_rest, not_positive, is_less, is_greater, highest, lowest,
}

abbrev IsLoud : Raises (Option String) → Type 0
IsLoud r = (m : String) → r ≡ ok (some m) → message_of (some m) ≢ []

unless-IsLoud :
    (test : Raises Bool) (m : String) (rest : Raises (Option String))
    → message_of (some m) ≢ []
    → IsLoud rest
    → IsLoud (unless test m rest)
unfolding unless
unless-IsLoud (ok true) m rest h k x e = λ empty. h (cc (e, empty))
unless-IsLoud (ok false) m rest h k x e = k x e
unless-IsLoud (err f) m rest h k x e = absurd (cc e)

or_rest-IsLoud :
    (found rest : Raises (Option String))
    → IsLoud found
    → IsLoud rest
    → IsLoud (found >>= λ m. or_rest m rest)
unfolding or_rest
or_rest-IsLoud (ok none) rest h k x e = k x e
or_rest-IsLoud (ok (some m)) rest h k x e = h x e
or_rest-IsLoud (err f) rest h k x e = absurd (cc e)

cons-eq-nil : (e : Message) (es : List Message) → e ∷ es ≢ []
cons-eq-nil e es h = cc

append_loud : (name : String) → message_of (some (name <> ": must be greater than zero")) ≢ []
append_loud String.[] = rw (append.nil ": must be greater than zero") (cons-eq-nil _ _)
append_loud (String.◌∷◌ c name) =
    rw (append.cons c name ": must be greater than zero") (cons-eq-nil _ _)

bind-IsLoud :
    {A : Type 0} (r : Raises A) (f : A → Raises (Option String))
    → ((a : A) → IsLoud (f a))
    → IsLoud (r >>= f)
bind-IsLoud (ok a) f h = h a
bind-IsLoud (err e) f h = λ x p. absurd (cc p)

if-IsLoud :
    (bad : Bool) (name : String) (rest : Raises (Option String))
    → IsLoud rest
    → IsLoud (if bad then ok (some (name <> ": must be greater than zero")) else rest)
if-IsLoud true name rest h = λ x e. λ empty. append_loud name (cc (e, empty))
if-IsLoud false name rest h = h

not_positive-IsLoud : (names : List String) (row : Row) → IsLoud (not_positive names row)
unfolding not_positive
not_positive-IsLoud [] row = λ x e. absurd (cc e)
not_positive-IsLoud (name ∷ names) row = bind-IsLoud (get_item name row) _ λ v.
    bind-IsLoud (at_most v zero_value) _ λ bad. if-IsLoud bad name _ (not_positive-IsLoud names row)

silent-IsLoud : IsLoud (ok none)
silent-IsLoud x e = absurd (cc e)

price_ranges-IsLoud : (row : Row) → IsLoud (price_ranges row)
unfolding price_ranges
price_ranges-IsLoud row =
    let under = is_greater (get_item "low" row) (lowest row) in
    let over = is_less (get_item "high" row) (highest row) in
    let sold = is_less (get_item "volume" row) (ok (int (pos 0))) in
    let low_text : String = "low: must be at most open and close" in
    let high_text : String = "high: must be at least low, open, and close" in
    let volume_text : String = "volume: must be non-negative" in
    let below =
      unless-IsLoud under low_text (ok none) (cons-eq-nil (rule_message low_text) [])
        silent-IsLoud in
    let around =
      unless-IsLoud over high_text (unless under low_text (ok none))
        (cons-eq-nil (rule_message high_text) []) below in
    or_rest-IsLoud (not_positive ("open" ∷ "high" ∷ "low" ∷ "close" ∷ []) row)
      (unless sold volume_text (unless over high_text (unless under low_text (ok none))))
      (not_positive-IsLoud ("open" ∷ "high" ∷ "low" ∷ "close" ∷ []) row)
      (unless-IsLoud sold volume_text (unless over high_text (unless under low_text (ok none)))
        (cons-eq-nil (rule_message volume_text) []) around)

pub price_ranges-none : (row : Row) → Passes row price_ranges → price_ranges row ≡ ok none
unfolding Passes
price_ranges-none row (none, e, silent) = e
price_ranges-none row (some m, e, silent) = absurd (price_ranges-IsLoud row m e silent)
