-- ===== src/Base/Rows.antt =====
-- Lists that hold at most one element for a test, as tables with a composite key do.
use mathlib.Core.Path.{◌≡◌, refl}
use mathlib.Core.Bool.{Bool, true, false, not}
use mathlib.Core.List.{List, [], ◌∷◌, ◌++◌}
use native.Mathlib.Omega.{arith}
use dvarpala.Base.Tests.{if◌then◌else◌}
use dvarpala.Base.Lists.{keep, any, any-append}

module _ {ℓ} {A : Type ℓ} (p : A → Bool) where
  -- The list with an element, unless one passes the test already.
  abbrev pub add_once : A → List A → List A
  add_once x xs = if any p xs then xs else xs ++ x ∷ []

  pub any-keep-not : (xs : List A) → any p (keep (λ x. not (p x)) xs) ≡ false
  unfolding any keep
  any-keep-not [] = refl
  any-keep-not (x ∷ xs) = ground (arith, any-keep-not xs)

  keep-not-append :
      (x : A) (xs : List A)
      → p x ≡ true
      → keep (λ y. not (p y)) (xs ++ x ∷ []) ≡ keep (λ y. not (p y)) xs
  unfolding keep
  keep-not-append x [] h = ground arith
  keep-not-append x (y ∷ xs) h = ground (arith, keep-not-append x xs h)

  pub any-add_once : (x : A) (xs : List A) → p x ≡ true → any p (add_once x xs) ≡ true
  unfolding any
  any-add_once x xs h = ground (arith, any-append p xs (x ∷ []))

  pub keep-not-add_once :
      (x : A) (xs : List A)
      → p x ≡ true
      → keep (λ y. not (p y)) (add_once x xs) ≡ keep (λ y. not (p y)) xs
  keep-not-add_once x xs h = ground (arith, keep-not-append x xs h)

  pub add_once-add_once :
      (x : A) (xs : List A) → p x ≡ true → add_once x (add_once x xs) ≡ add_once x xs
  add_once-add_once x xs h = ground (arith, any-add_once x xs h)
