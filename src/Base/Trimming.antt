-- ===== src/Base/Trimming.antt =====
-- Text that trimming leaves alone.
use mathlib.Core.Path.{◌≡◌, refl, ◌∙◌, ap, ap₂}
use mathlib.Core.Bool.{false}
use Prim.Native.Nat.{ℕ}
use mathlib.Core.List.{[], ◌∷◌}
use native.Mathlib.Omega.{arith}
use dvarpala.Base.Lists.{All}
use dvarpala.Base.Strings.{
  Text, is_space, is_empty, lower_byte, to_lower, trim_left, trim_right, trim_space,
}

abbrev pub NoSpace : Text → Type 0
NoSpace s = All (λ c. is_space c ≡ false) s

trim_left-NoSpace : (s : Text) → NoSpace s → trim_left s ≡ s
unfolding trim_left
trim_left-NoSpace [] h = refl
trim_left-NoSpace (c ∷ s) (p, h) = ground arith

trim_right-NoSpace : (s : Text) → NoSpace s → trim_right s ≡ s
unfolding trim_right
trim_right-NoSpace [] h = refl
trim_right-NoSpace (c ∷ s) (p, h) = ground (arith, trim_right-NoSpace s h)

pub trim_space-NoSpace : (s : Text) → NoSpace s → trim_space s ≡ s
unfolding trim_space
trim_space-NoSpace s h = ap trim_right (trim_left-NoSpace s h) ∙ trim_right-NoSpace s h

is_space-lower_byte : (c : ℕ) → is_space (lower_byte c) ≡ is_space c
is_space-lower_byte c = ground arith

trim_left-to_lower : (s : Text) → trim_left (to_lower s) ≡ to_lower (trim_left s)
unfolding trim_left to_lower
trim_left-to_lower [] = refl
trim_left-to_lower (c ∷ s) = ground (arith, is_space-lower_byte c, trim_left-to_lower s)

is_empty-to_lower : (s : Text) → is_empty (to_lower s) ≡ is_empty s
unfolding to_lower
is_empty-to_lower [] = refl
is_empty-to_lower (c ∷ s) = refl

trim_right-to_lower : (s : Text) → trim_right (to_lower s) ≡ to_lower (trim_right s)
unfolding trim_right to_lower
trim_right-to_lower [] = refl
trim_right-to_lower (c ∷ s) =
    let rest = trim_right-to_lower s in
    ground (arith, is_space-lower_byte c, is_empty-to_lower (trim_right s))

trim_right-trim_right : (s : Text) → trim_right (trim_right s) ≡ trim_right s
unfolding trim_right
trim_right-trim_right [] = refl
trim_right-trim_right (c ∷ s) = ground (arith, trim_right-trim_right s)

-- Text without a space in front keeps that when its end is trimmed.
trim_left-trim_space : (s : Text) → trim_left (trim_right (trim_left s)) ≡ trim_right (trim_left s)
unfolding trim_left trim_right
trim_left-trim_space [] = refl
trim_left-trim_space (c ∷ s) = ground (arith, trim_left-trim_space s)

to_lower-to_lower : (s : Text) → to_lower (to_lower s) ≡ to_lower s
unfolding to_lower
to_lower-to_lower [] = refl
to_lower-to_lower (c ∷ s) = ap₂ ◌∷◌ (ground arith) (to_lower-to_lower s)

-- Folding and trimming twice is as once.
pub to_lower-trim_space_twice :
    (s : Text) → to_lower (trim_space (to_lower (trim_space s))) ≡ to_lower (trim_space s)
unfolding trim_space
to_lower-trim_space_twice s =
    let t = trim_right (trim_left s) in
    ap (λ x. to_lower (trim_right x)) (trim_left-to_lower t ∙ ap to_lower (trim_left-trim_space s))
    ∙ ap to_lower (trim_right-to_lower t ∙ ap to_lower (trim_right-trim_right (trim_left s)))
    ∙ to_lower-to_lower t
