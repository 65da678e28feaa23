-- ===== src/Prelude/Exec.antt =====
-- Actions on a state that may raise: the state that an exception leaves behind is kept, as the file
-- system keeps what was written before a crash.
use mathlib.Core.Path.{◌≡◌, refl}
use marketforge.Prelude.Results.{Result, ok, err}

abbrev pub Exec : Type 0 → Type 0 → Type 0 → Type 0
Exec E S A = S → Result E A × S

module _ {E S : Type 0} where
  unfoldable pub pure : {A : Type 0} → A → Exec E S A
  pure a s = (ok a, s)

  unfoldable pub raise : {A : Type 0} → E → Exec E S A
  raise e s = (err e, s)

  -- a step that only computes
  unfoldable pub lift : {A : Type 0} → Result E A → Exec E S A
  lift r s = (r, s)

  unfoldable pub gets : {A : Type 0} → (S → A) → Exec E S A
  gets f s = (ok (f s), s)

  unfoldable pub modify : (S → S) → Exec E S (Unit {0})
  modify f s = (ok tt, f s)

  abbrev continue : {A B : Type 0} → (A → Exec E S B) → Result E A → S → Result E B × S
  continue f (ok a) s = f a s
  continue f (err e) s = (err e, s)

  infixl 5 ◌>>=◌ ◌>>◌
  -- Opening this opens the steps above too.
  unfoldable pub ◌>>=◌ : {A B : Type 0} → Exec E S A → (A → Exec E S B) → Exec E S B
  unfolding pure raise lift gets modify
  ◌>>=◌ m f s = continue f (m s).0 (m s).1

  abbrev pub ◌>>◌ : {B : Type 0} → Exec E S (Unit {0}) → Exec E S B → Exec E S B
  ◌>>◌ m k = m >>= λ _. k

module _ {E S : Type 0} where
  -- What holds of a chain of two actions holds after the second, or where the first raised.
  continue_cases {ℓ} :
      {A B : Type 0} (P : Result E B × S → Type ℓ) (f : A → Exec E S B) (r : Result E A) (t : S)
      → ((a : A) → r ≡ ok a → P (f a t))
      → ((e : E) → r ≡ err e → P (err e, t))
      → P (continue f r t)
  continue_cases P f (ok a) t h k = h a refl
  continue_cases P f (err e) t h k = k e refl

  pub >>=_cases {ℓ} :
      {A B : Type 0} (P : Result E B × S → Type ℓ) (m : Exec E S A) (f : A → Exec E S B) (s : S)
      → ((a : A) → (m s).0 ≡ ok a → P (f a (m s).1))
      → ((e : E) → (m s).0 ≡ err e → P (err e, (m s).1))
      → P ((m >>= f) s)
  unfolding ◌>>=◌
  >>=_cases P m f s h k = continue_cases P f (m s).0 (m s).1 h k

  -- The same where the first action only computes, reads the state or changes it.
  pub lift_then {ℓ} :
      {A B : Type 0} (P : Result E B × S → Type ℓ) (m : Result E A) (f : A → Exec E S B) (s : S)
      → ((a : A) → m ≡ ok a → P (f a s))
      → ((e : E) → m ≡ err e → P (err e, s))
      → P ((lift m >>= f) s)
  unfolding ◌>>=◌ lift
  lift_then P m f s h k = continue_cases P f m s h k

  pub gets_then {ℓ} :
      {A B : Type 0} (P : Result E B × S → Type ℓ) (g : S → A) (f : A → Exec E S B) (s : S)
      → P (f (g s) s)
      → P ((gets g >>= f) s)
  unfolding ◌>>=◌ gets
  gets_then P g f s h = h

  pub modify_then {ℓ} :
      {B : Type 0} (P : Result E B × S → Type ℓ) (g : S → S) (k : Exec E S B) (s : S)
      → P (k (g s))
      → P ((modify g >> k) s)
  unfolding ◌>>=◌ modify
  modify_then P g k s h = h

-- The state after an action, returned or raised, is related to the state before it.
pub record Keeps {E S A : Type 0} (R : S → S → Type 0) (m : Exec E S A) : Type 0 where
  pub at : (s : S) → R s (m s).1

module _ {E S : Type 0} (R : S → S → Type 0) (here : (s : S) → R s s)
    (then : (s t u : S) → R s t → R t u → R s u) where
  pub Keeps-pure : {A : Type 0} (r : Result E A) → Keeps R (lift {E = E} {S = S} r)
  unfolding lift
  Keeps-pure r = record { at = λ s. here s }

  Keeps-continue :
      {A B : Type 0} (f : A → Exec E S B)
      → ((a : A) → Keeps R (f a))
      → (s : S) (r : Result E A) (t : S) → R s t
      → R s (continue f r t).1
  Keeps-continue f k s (ok a) t st = then s t (f a t).1 st ((k a).at t)
  Keeps-continue f k s (err e) t st = st

  pub Keeps-bind :
      {A B : Type 0} (m : Exec E S A) (f : A → Exec E S B)
      → Keeps R m
      → ((a : A) → Keeps R (f a))
      → Keeps R (m >>= f)
  unfolding ◌>>=◌
  Keeps-bind m f h k = record { at = λ s. Keeps-continue f k s (m s).0 (m s).1 (h.at s) }
