-- ===== src/Prelude/Select.antt =====
-- Filtering and searching lists by Boolean tests.
use mathlib.Core.Path.{◌≡◌, refl}
use mathlib.Core.Logic.{inl, inr}
use mathlib.Core.Bool.{Bool, true, false, ◌||◌}
use mathlib.Core.List.{List, [], ◌∷◌, ◌++◌}
use native.Mathlib.Omega.{arith}
use hk.Prelude.Tests.{if◌then◌else◌, Bool-cases}

module _ {ℓ} {A : Type ℓ} where
  -- `Iterator::filter`.
  unfoldable pub filter : (A → Bool) → List A → List A
  filter p [] = []
  filter p (x ∷ xs) = let rest = filter p xs in if p x then x ∷ rest else rest

  -- `Iterator::any`.
  unfoldable pub any : (A → Bool) → List A → Bool
  any p [] = false
  any p (x ∷ xs) = p x || any p xs

  abbrev pub is_empty : List A → Bool
  is_empty [] = true
  is_empty (x ∷ xs) = false

  -- Something that one test finds and another accepts is found among what is accepted.
  pub any-filter :
      (p q r : A → Bool) (xs : List A)
      → ((x : A) → p x ≡ true → q x ≡ true → r x ≡ true)
      → ((x : A) → p x ≡ true → q x ≡ true)
      → any p xs ≡ true
      → any r (filter q xs) ≡ true
  unfolding any filter
  any-filter p q r [] f g h = h
  any-filter p q r (x ∷ xs) f g h = elim (Bool-cases (p x)) [
    | inl e ↦ ground (arith, e, f x, g x, any-filter p q r xs f g)
    | inr e ↦ ground (arith, e, any-filter p q r xs f g)
  ]

  pub any-append : (p : A → Bool) (xs ys : List A) → any p (xs ++ ys) ≡ (any p xs || any p ys)
  unfolding any
  any-append p [] ys = refl
  any-append p (x ∷ xs) ys = ground (arith, any-append p xs ys)
