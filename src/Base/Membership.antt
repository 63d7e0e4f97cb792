-- ===== src/Base/Membership.antt =====
-- An element of a list with a property, through the operations of lists.
use mathlib.Core.Path.{◌≡◌}
use mathlib.Core.Logic.{◌↔◌, ◌⊎◌, inl, inr}
use mathlib.Core.Bool.{Bool, true, false}
use mathlib.Core.List.{List, [], ◌∷◌, ◌++◌, map, flat_map}
use dvarpala.Base.Tests.{Bool-cases}
use dvarpala.Base.Lists.{keep}

-- Some element has the property.
pub data Any {ℓ κ} {A : Type ℓ} (P : A → Type κ) : List A → Type (ℓ ⊔ κ) where
  at_head : {x : A} {xs : List A} → P x → Any P (x ∷ xs)
  in_tail : {x : A} {xs : List A} → Any P xs → Any P (x ∷ xs)

pub iff_trans {ℓ κ ι} : {P : Type ℓ} {Q : Type κ} {R : Type ι} → (P ↔ Q) → (Q ↔ R) → P ↔ R
iff_trans (f, g) (h, k) = (λ p. h (f p), λ r. g (k r))

module _ {ℓ κ ι} {A : Type ℓ} {P : A → Type κ} {Q : A → Type ι} where
  pub Any-lift : ((x : A) → P x → Q x) → (xs : List A) → Any P xs → Any Q xs
  Any-lift f [] h = elim h [ ]
  Any-lift f (x ∷ xs) (at_head p) = at_head (f x p)
  Any-lift f (x ∷ xs) (in_tail p) = in_tail (Any-lift f xs p)

module _ {ℓ κ ι} {A : Type ℓ} {P : A → Type κ} {Q : A → Type ι} where
  pub Any-cong : ((x : A) → P x ↔ Q x) → (xs : List A) → Any P xs ↔ Any Q xs
  Any-cong f xs = (Any-lift (λ x. (f x).0) xs, Any-lift (λ x. (f x).1) xs)

module _ {ℓ κ} {A : Type ℓ} {P : A → Type κ} where
  pub Any-append : (xs ys : List A) → Any P (xs ++ ys) ↔ (Any P xs ⊎ Any P ys)
  Any-append xs ys = (split xs, join xs)
    where
      split : (xs : List A) → Any P (xs ++ ys) → Any P xs ⊎ Any P ys
      split [] h = inr h
      split (x ∷ xs) (at_head p) = inl (at_head p)
      split (x ∷ xs) (in_tail h) = elim (split xs h) [ inl k ↦ inl (in_tail k) | inr k ↦ inr k ]

      join : (xs : List A) → Any P xs ⊎ Any P ys → Any P (xs ++ ys)
      join [] (inl h) = elim h [ ]
      join [] (inr h) = h
      join (x ∷ xs) (inl (at_head p)) = at_head p
      join (x ∷ xs) (inl (in_tail h)) = in_tail (join xs (inl h))
      join (x ∷ xs) (inr h) = in_tail (join xs (inr h))

  Any-cons : (x : A) (xs : List A) → Any P (x ∷ xs) → P x ⊎ Any P xs
  Any-cons x xs (at_head k) = inl k
  Any-cons x xs (in_tail k) = inr k

  Any-keep_out : (p : A → Bool) (xs : List A) → Any P (keep p xs) → Any (λ x. (p x ≡ true) × P x) xs
  unfolding keep
  Any-keep_out p [] h = elim h [ ]
  Any-keep_out p (x ∷ xs) h = elim (Bool-cases (p x)) [
    | inl e ↦ elim (Any-cons x (keep p xs) (only e h)) [
      | inl k ↦ at_head (e, k)
      | inr k ↦ in_tail (Any-keep_out p xs k)
    ]
    | inr e ↦ in_tail (Any-keep_out p xs (dropped e h))
  ]
    where
      only : p x ≡ true → Any P (keep p (x ∷ xs)) → Any P (x ∷ keep p xs)
      only e = rw e (λ k. k)

      dropped : p x ≡ false → Any P (keep p (x ∷ xs)) → Any P (keep p xs)
      dropped e = rw e (λ k. k)

  Any-keep_into :
      (p : A → Bool) (xs : List A) → Any (λ x. (p x ≡ true) × P x) xs → Any P (keep p xs)
  unfolding keep
  Any-keep_into p [] h = elim h [ ]
  Any-keep_into p (x ∷ xs) (at_head (e, k)) = rw e (at_head k)
  Any-keep_into p (x ∷ xs) (in_tail h) = elim (Bool-cases (p x)) [
    | inl e ↦ rw e (in_tail (Any-keep_into p xs h))
    | inr e ↦ rw e (Any-keep_into p xs h)
  ]

  pub Any-keep : (p : A → Bool) (xs : List A) → Any P (keep p xs) ↔ Any (λ x. (p x ≡ true) × P x) xs
  Any-keep p xs = (Any-keep_out p xs, Any-keep_into p xs)

module _ {ℓ ι κ} {A : Type ℓ} {B : Type ι} {P : B → Type κ} where
  pub Any-map : (f : A → B) (xs : List A) → Any P (map f xs) ↔ Any (λ x. P (f x)) xs
  Any-map f xs = (out xs, into xs)
    where
      out : (xs : List A) → Any P (map f xs) → Any (λ x. P (f x)) xs
      out [] h = elim h [ ]
      out (x ∷ xs) (at_head h) = at_head h
      out (x ∷ xs) (in_tail h) = in_tail (out xs h)

      into : (xs : List A) → Any (λ x. P (f x)) xs → Any P (map f xs)
      into [] h = elim h [ ]
      into (x ∷ xs) (at_head h) = at_head h
      into (x ∷ xs) (in_tail h) = in_tail (into xs h)

  Any-flat_map_out :
      (f : A → List B) (xs : List A) → Any P (flat_map f xs) → Any (λ x. Any P (f x)) xs
  unfolding flat_map
  Any-flat_map_out f [] h = elim h [ ]
  Any-flat_map_out f (x ∷ xs) h = elim ((Any-append (f x) (flat_map f xs)).0 h) [
    | inl k ↦ at_head k
    | inr k ↦ in_tail (Any-flat_map_out f xs k)
  ]

  Any-flat_map_into :
      (f : A → List B) (xs : List A) → Any (λ x. Any P (f x)) xs → Any P (flat_map f xs)
  unfolding flat_map
  Any-flat_map_into f [] h = elim h [ ]
  Any-flat_map_into f (x ∷ xs) (at_head h) = (Any-append (f x) (flat_map f xs)).1 (inl h)
  Any-flat_map_into f (x ∷ xs) (in_tail h) =
      (Any-append (f x) (flat_map f xs)).1 (inr (Any-flat_map_into f xs h))

  pub Any-flat_map :
      (f : A → List B) (xs : List A) → Any P (flat_map f xs) ↔ Any (λ x. Any P (f x)) xs
  Any-flat_map f xs = (Any-flat_map_out f xs, Any-flat_map_into f xs)
