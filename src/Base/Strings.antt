-- ===== src/Base/Strings.antt =====
-- Go strings as lists of bytes, and the functions of package strings that the program calls.
-- Case folding and white space are those of ASCII.
use Prim.Native.Nat.{ℕ, ◌+◌}
use Prim.Native.Char.{code}
use Prim.Native.String.{String}
use mathlib.Core.Path.{◌≡◌, refl, ap₂}
use mathlib.Core.Logic.{◌↔◌}
use mathlib.Core.Bool.{Bool, true, false, ◌&&◌, ◌||◌}
use mathlib.Core.List.{List, [], ◌∷◌, ◌++◌, map}
use mathlib.Core.Option.{Option, none, some}
use native.Mathlib.Omega.{arith}
use dvarpala.Base.Tests.{leb, ◌==◌, if◌then◌else◌}
use dvarpala.Base.Lists.{any}

abbrev pub Text : Type 0
Text = List ℕ

-- The bytes of a literal.
abbrev pub codes : String → Text
codes String.[] = []
codes (String.◌∷◌ c s) = code c ∷ codes s

unfoldable pub text_eq : Text → Text → Bool
text_eq [] [] = true
text_eq [] (y ∷ ys) = false
text_eq (x ∷ xs) [] = false
text_eq (x ∷ xs) (y ∷ ys) = x == y && text_eq xs ys

pub text_eq→eq : (s t : Text) → text_eq s t ≡ true → s ≡ t
unfolding text_eq
text_eq→eq [] [] h = refl
text_eq→eq [] (y ∷ ys) h = absurd (ground arith)
text_eq→eq (x ∷ xs) [] h = absurd (ground arith)
text_eq→eq (x ∷ xs) (y ∷ ys) h = ap₂ ◌∷◌ (ground arith) (text_eq→eq xs ys (ground arith))

pub text_eq_refl : (s : Text) → text_eq s s ≡ true
unfolding text_eq
text_eq_refl [] = refl
text_eq_refl (x ∷ xs) = ground (arith, text_eq_refl xs)

pub text_eq_iff : (s t : Text) → (text_eq s t ≡ true) ↔ (s ≡ t)
text_eq_iff s t = (text_eq→eq s t, λ e. ap_refl e)
  where
    ap_refl : s ≡ t → text_eq s t ≡ true
    ap_refl e = rw e (text_eq_refl t)

abbrev pub is_empty : Text → Bool
is_empty [] = true
is_empty (x ∷ xs) = false

-- strings.ToLower
abbrev pub lower_byte : ℕ → ℕ
lower_byte c = if leb b'A' c && leb c b'Z' then c + 32 else c

unfoldable pub to_lower : Text → Text
to_lower = map lower_byte

-- strings.TrimSpace: tab, line feed, vertical tab, form feed, carriage return and blank.
abbrev pub is_space : ℕ → Bool
is_space c = (leb 9 c && leb c 13) || c == 32

unfoldable pub trim_left : Text → Text
trim_left [] = []
trim_left (c ∷ s) = if is_space c then trim_left s else c ∷ s

-- Trailing space is dropped where all that follows is space.
unfoldable pub trim_right : Text → Text
trim_right [] = []
trim_right (c ∷ s) = let rest = trim_right s in if is_space c && is_empty rest then [] else c ∷ rest

unfoldable pub trim_space : Text → Text
unfolding trim_left trim_right
trim_space s = trim_right (trim_left s)

-- strings.HasPrefix and strings.TrimPrefix
unfoldable pub strip_prefix? : Text → Text → Option Text
strip_prefix? [] s = some s
strip_prefix? (c ∷ p) [] = none
strip_prefix? (c ∷ p) (d ∷ s) = if c == d then strip_prefix? p s else none

abbrev pub has_prefix : Text → Text → Bool
has_prefix p s = elim (strip_prefix? p s) [ none ↦ false | some r ↦ true ]

abbrev pub trim_prefix : Text → Text → Text
trim_prefix p s = elim (strip_prefix? p s) [ none ↦ s | some r ↦ r ]

-- strings.ContainsAny for a set of bytes, and strings.Contains for one byte.
abbrev pub contains_any : (ℕ → Bool) → Text → Bool
contains_any p s = any p s

-- What follows the last occurrence of a byte: s[strings.LastIndex(s, c)+1:], none at -1.
unfoldable pub after_last? : ℕ → Text → Option Text
after_last? c [] = none
after_last? c (d ∷ s) = elim (after_last? c s) [
  | some r ↦ some r
  | none ↦ if d == c then some s else none
]

-- strings.Index of a byte.
unfoldable pub index? : ℕ → Text → Option ℕ
index? c [] = none
index? c (d ∷ s) =
    let rest = index? c s in
    if d == c then some 0 else elim rest [ none ↦ none | some i ↦ some (i + 1) ]

-- strings.HasSuffix for one byte.
unfoldable pub ends_with : ℕ → Text → Bool
ends_with c [] = false
ends_with c (d ∷ s) = (is_empty s && d == c) || ends_with c s

-- strings.EqualFold
abbrev pub equal_fold : Text → Text → Bool
equal_fold s t = text_eq (to_lower s) (to_lower t)

-- strings.Join
unfoldable pub join : Text → List Text → Text
join sep [] = []
join sep (l ∷ []) = l
join sep (l ∷ k ∷ r) = l ++ sep ++ join sep (k ∷ r)
