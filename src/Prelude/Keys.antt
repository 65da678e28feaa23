-- ===== src/Prelude/Keys.antt =====
-- Membership tests over a type with decidable equality, as Python's `in` on sets and lists, and
-- the decision for texts.
use Prim.Native.String.{String}
use mathlib.Core.Path.{◌≡◌, refl, sym}
use mathlib.Core.Logic.{inl, inr, ite}
use mathlib.Core.List.{List, [], ◌∷◌}
use mathlib.Core.Bool.{Bool, true, false}
use native.Mathlib.Omega.{arith}
use text.Mathlib.Text.{◌==◌ as str_eq}
use text.Mathlib.TextEquality.{eq_iff}
use marketforge.Prelude.Lists.{In}

decide_str : (s t : String) (b : Bool) → str_eq s t ≡ b → Dec (s ≡ t)
decide_str s t true e = yes ((eq_iff s t).0 e)
decide_str s t false e = no (λ p. cc (e, (eq_iff s t).1 p))

unfoldable pub String_discrete : Discrete String
unfolding decide_str
String_discrete s t = decide_str s t (str_eq s t) refl

module _ {ℓ} {A : Type ℓ} (dec : Discrete A) where
  unfoldable pub List_discrete : Discrete (List A)
  List_discrete [] [] = yes refl
  List_discrete [] (y ∷ ys) = no (λ e. cc)
  List_discrete (x ∷ xs) [] = no (λ e. cc)
  List_discrete (x ∷ xs) (y ∷ ys) = both (dec x y) (List_discrete xs ys)
    where
      both : Dec (x ≡ y) → Dec (xs ≡ ys) → Dec ((x ∷ xs) ≡ (y ∷ ys))
      both (yes p) (yes q) = yes (cc)
      both (no p) _ = no (λ e. p (cc))
      both (yes p) (no q) = no (λ e. q (cc))

module _ {A : Type 0} (dec : Discrete A) where
  -- `a in xs`
  unfoldable pub contains : A → List A → Bool
  contains a [] = false
  contains a (x ∷ xs) = ite (dec x a) true (contains a xs)

  pub contains→In : (a : A) (xs : List A) → contains a xs ≡ true → In a xs
  unfolding contains
  contains→In a [] h = cc
  contains→In a (x ∷ xs) h = elim (dec x a) [
    | yes p ↦ inl (sym p)
    | no p ↦ inr (contains→In a xs (ground arith))
  ]

  pub In→contains : (a : A) (xs : List A) → In a xs → contains a xs ≡ true
  unfolding contains
  In→contains a (x ∷ xs) (inl e) = ground arith
  In→contains a (x ∷ xs) (inr h) = ground (arith, In→contains a xs h)
  In→contains a [] h = absurd h

  pub contains-false : (a : A) (xs : List A) → contains a xs ≡ false → ¬ In a xs
  contains-false a xs h m = cc (h, In→contains a xs m)

  pub not-In→contains : (a : A) (xs : List A) → ¬ In a xs → contains a xs ≡ false
  unfolding contains
  not-In→contains a [] h = refl
  not-In→contains a (x ∷ xs) h = elim (dec x a) [
    | yes p ↦ absurd (h (inl (sym p)))
    | no p ↦ ground (arith, not-In→contains a xs (λ m. h (inr m)))
  ]
