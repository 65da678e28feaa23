-- ===== src/Ingestion/Sources/Retries/Bounded.antt =====
-- The requests and the delays of a loop of attempts (ingestion/sources/http_json.py and tiingo.py).
use marketforge.Prelude.{
  ℕ, zero, suc, ◌+◌, ◌≤◌, ◌≡◌, refl, sym, ap, ◌∙◌, List, [], ◌∷◌, ◌++◌, arith, All, length,
  All-append, append_assoc, length-append,
}
use marketforge.Prelude.Exec.{Exec, pure, raise, gets, modify, ◌>>=◌}
use marketforge.Ingestion.Values.{Float}
use marketforge.Ingestion.Sources.Retries.{
  Answer, Verdict, finished, again, stopped, Traffic, send, pause, conclude, attempts,
}

-- The list of n times a
unfoldable pub copies : {A : Type 0} → ℕ → A → List A
copies zero a = []
copies (suc n) a = a ∷ copies n a

copies-snoc :
    {A : Type 0} (n : ℕ) (a : A) (xs : List A) → copies n a ++ (a ∷ xs) ≡ a ∷ (copies n a ++ xs)
unfolding copies
copies-snoc zero a xs = refl
copies-snoc (suc n) a xs = ap (λ ys. a ∷ ys) (copies-snoc n a xs)

length-snoc : {A : Type 0} (xs : List A) (x : A) → length (xs ++ x ∷ []) ≡ suc (length xs)
length-snoc xs x = omega (arith, length-append xs (x ∷ []))

module _ {Req : Type 0} (IsOk : Float → Type 0) (r : Req) where
  -- The traffic after a number of delays that are in order: one request more than there are delays.
  pub record Attempted (most : ℕ) (t u : Traffic Req) : Type 0 where
    pub delays : List Float
    pub few : length delays ≤ most
    pub allowed : All IsOk delays
    pub requests : u.sent ≡ copies (suc (length delays)) r ++ t.sent
    pub slept : u.sleeps ≡ delays ++ t.sleeps

  abbrev after_send : Traffic Req → Traffic Req
  after_send t = record t { sent = r ∷ t.sent }

  Attempted-now : (most : ℕ) (t : Traffic Req) → Attempted most t (after_send t)
  unfolding copies
  Attempted-now most t = record {
    delays = [];
    few = omega arith;
    allowed = tt;
    requests = refl;
    slept = refl;
  }

  Attempted-later :
      (most : ℕ) (d : Float) (t u : Traffic Req)
      → IsOk d
      → Attempted most (record t { sent = r ∷ t.sent; sleeps = d ∷ t.sleeps }) u
      → Attempted (suc most) t u
  unfolding copies
  Attempted-later most d t u fine h = record {
    delays = h.delays ++ d ∷ [];
    few = rw (length-snoc h.delays d) (grind (arith, h.few));
    allowed = All-append IsOk h.delays (d ∷ []) h.allowed (fine, tt);
    requests =
        rw (length-snoc h.delays d)
          (h.requests ∙ ap (λ ys. r ∷ ys) (copies-snoc (length h.delays) r t.sent));
    slept = h.slept ∙ sym (append_assoc h.delays (d ∷ []) t.sleeps);
  }

  conclude-Attempted :
      {E P : Type 0} (v : Verdict E P) (rest : Exec E (Traffic Req) P) (most : ℕ) (t : Traffic Req)
      → ((d : Float) → v ≡ again d → IsOk d)
      → ((u : Traffic Req) → Attempted most u (rest u).1)
      → Attempted (suc most) t (conclude v rest (after_send t)).1
  unfolding conclude pure raise pause modify ◌>>=◌
  conclude-Attempted (finished p) rest most t fine later = Attempted-now (suc most) t
  conclude-Attempted (stopped e) rest most t fine later = Attempted-now (suc most) t
  conclude-Attempted (again d) rest most t fine later =
      Attempted-later most d t _ (fine d refl) (later _)

  conclude_last-Attempted :
      {E P : Type 0} (v : Verdict E P) (rest : Exec E (Traffic Req) P) (t : Traffic Req)
      → ((d : Float) → v ≡ again d → ⊥)
      → Attempted zero t (conclude v rest (after_send t)).1
  unfolding conclude pure raise
  conclude_last-Attempted (finished p) rest t never = Attempted-now zero t
  conclude_last-Attempted (stopped e) rest t never = Attempted-now zero t
  conclude_last-Attempted (again d) rest t never = absurd (never d refl)

  -- When no delay follows the last attempt and each delay is in order, the loop sleeps at most as
  -- often as attempts may follow, and sends one request more than it sleeps.
  pub attempts-Attempted :
      {Body E P : Type 0} (network : List Req → Req → Answer Body)
      (judge : ℕ → ℕ → Answer Body → Verdict E P) (e : E) (left n : ℕ) (t : Traffic Req)
      → ((m k : ℕ) (a : Answer Body) (d : Float) → judge (suc m) k a ≡ again d → IsOk d)
      → ((k : ℕ) (a : Answer Body) (d : Float) → judge zero k a ≡ again d → ⊥)
      → Attempted left t (attempts network judge e r left n t).1
  unfolding attempts send gets modify pure ◌>>=◌
  attempts-Attempted network judge e zero n t fine never =
      conclude_last-Attempted _ _ t (λ d h. never n _ d h)
  attempts-Attempted network judge e (suc left) n t fine never =
      conclude-Attempted _ _ left t (λ d h. fine left n _ d h)
        (λ u. attempts-Attempted network judge e left (n + 1) u fine never)
