-- ===== src/Ingestion/Sources/Retries/Turns.antt =====
-- One turn of a loop of attempts (ingestion/sources/http_json.py and tiingo.py).
use marketforge.Prelude.{ℕ, zero, suc, ◌+◌, ◌≡◌, ◌∷◌, ok, List}
use marketforge.Prelude.Exec.{Exec, pure, gets, modify, ◌>>=◌}
use marketforge.Ingestion.Values.{Float}
use marketforge.Ingestion.Sources.Retries.{
  Answer, Verdict, finished, again, Traffic, send, pause, conclude, attempts,
}

conclude_again :
    {Req E P : Type 0} (v : Verdict E P) (rest : Exec E (Traffic Req) P) (d : Float)
    (t : Traffic Req)
    → v ≡ again d
    → conclude v rest t ≡ rest (record t { sleeps = d ∷ t.sleeps })
unfolding conclude pause modify ◌>>=◌
conclude_again v rest d t h = rw h

module _ {Req E Body P : Type 0} (network : List Req → Req → Answer Body)
    (judge : ℕ → ℕ → Answer Body → Verdict E P) (past_end : E) (r : Req) where
  pub attempts-finished :
      (left n : ℕ) (t : Traffic Req) (p : P)
      → judge left n (network t.sent r) ≡ finished p
      → attempts network judge past_end r left n t ≡ (ok p, record t { sent = r ∷ t.sent })
  unfolding attempts send gets modify pure conclude ◌>>=◌
  attempts-finished zero n t p h = rw h
  attempts-finished (suc left) n t p h = rw h

  pub attempts-again :
      (left n : ℕ) (t : Traffic Req) (d : Float)
      → judge (suc left) n (network t.sent r) ≡ again d
      → attempts network judge past_end r (suc left) n t
        ≡ attempts network judge past_end r left
            (n + 1)
            (record t { sent = r ∷ t.sent; sleeps = d ∷ t.sleeps })
  unfolding attempts send gets modify pure ◌>>=◌
  attempts-again left n t d h = conclude_again _ _ d _ h
