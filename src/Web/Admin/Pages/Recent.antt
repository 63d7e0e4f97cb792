-- ===== src/Web/Admin/Pages/Recent.antt =====
-- The recent sign-ins of the activity page.
use dvarpala.Base.{
  ℕ, zero, suc, ◌≤◌, ◌≡◌, Bool, true, List, [], ◌∷◌, keep, take, length, All, sort_by, Sorted,
  sort_by-Sorted, All-sort_by, arith, Bool-cases, inl, inr,
}
use dvarpala.Services.Users.{Account}
use dvarpala.Web.Admin.Pages.{has_signed_in, later_login, recent}

module _ {ℓ} {A : Type ℓ} where
  All-take {κ} : (P : A → Type κ) (n : ℕ) (xs : List A) → All P xs → All P (take n xs)
  All-take P zero xs h = tt
  All-take P (suc n) [] h = tt
  All-take P (suc n) (x ∷ xs) (p, h) = (p, All-take P n xs h)

  Sorted-take :
      (before : A → A → Bool) (n : ℕ) (xs : List A) → Sorted before xs → Sorted before (take n xs)
  Sorted-take before zero xs h = tt
  Sorted-take before (suc n) [] h = tt
  Sorted-take before (suc n) (x ∷ xs) (p, h) =
      (All-take (λ y. before x y ≡ true) n xs p, Sorted-take before n xs h)

  length-take : (n : ℕ) (xs : List A) → length (take n xs) ≤ n
  length-take zero xs = ground arith
  length-take (suc n) [] = ground arith
  length-take (suc n) (x ∷ xs) = ground (arith, length-take n xs)

  All-keep : (p : A → Bool) (xs : List A) → All (λ x. p x ≡ true) (keep p xs)
  unfolding keep
  All-keep p [] = tt
  All-keep p (x ∷ xs) = elim (Bool-cases (p x)) [
    | inl e ↦ rw e ((e, All-keep p xs))
    | inr e ↦ rw e (All-keep p xs)
  ]

-- The activity page shows at most 25 people, only such as have signed in, and each no later than
-- those above.
pub recent-Sorted :
    (users : List Account)
    → (length (recent users) ≤ 25)
      × All (λ a. has_signed_in a ≡ true) (recent users)
      × Sorted later_login (recent users)
unfolding recent
recent-Sorted users =
    let seen = keep has_signed_in users in
    (
      length-take 25 (sort_by later_login seen),
      All-take (λ a. has_signed_in a ≡ true) 25 (sort_by later_login seen)
          (All-sort_by later_login (λ a. has_signed_in a ≡ true) seen
            (All-keep has_signed_in users)),
      Sorted-take later_login 25 (sort_by later_login seen)
          (sort_by-Sorted later_login (λ x y h. ground arith) (λ x y z h k. ground arith) seen),
    )
