-- ===== src/Base/Integers.antt =====
-- Go's signed integers of 64 bits as text: strconv.ParseInt and Atoi in base ten, and %d.
use Prim.Native.Nat.{ℕ, zero, suc, ◌+◌, ◌-◌, ◌*◌, ◌/◌, ◌%◌, ◌^◌}
use mathlib.Core.Bool.{Bool, true, false, ◌&&◌}
use mathlib.Core.List.{[], ◌∷◌, ◌++◌}
use dvarpala.Base.Tests.{ltb, leb, ◌==◌, if◌then◌else◌}
use dvarpala.Base.Strings.{Text}

-- negsuc n is -(n + 1).
pub data ℤ : Type 0 where
  pos : ℕ → ℤ
  negsuc : ℕ → ℤ

-- What ParseUint finds: an error of range is returned as soon as 64 bits are exceeded.
pub data Magnitude : Type 0 where
  exact : ℕ → Magnitude
  overflow malformed : Magnitude

unfoldable pub magnitude : ℕ → Text → Magnitude
magnitude acc [] = exact acc
magnitude acc (c ∷ s) =
    let next = acc * 10 + (c - b'0') in
    let rest = magnitude next s in
    if leb b'0' c && leb c b'9' then (if ltb next (2 ^ 64) then rest else overflow) else malformed

abbrev pub unsigned : Text → Magnitude
unsigned [] = malformed
unsigned (c ∷ s) = magnitude 0 (c ∷ s)

-- The value that is returned, and whether there was no error. A number that is out of range is
-- returned as the nearest one in range, with an error; malformed text as 0.
abbrev pub non_negative : Magnitude → ℤ × Bool
non_negative (exact n) = if ltb n (2 ^ 63) then (pos n, true) else (pos (2 ^ 63 - 1), false)
non_negative overflow = (pos (2 ^ 63 - 1), false)
non_negative malformed = (pos 0, false)

abbrev pub negated : ℕ → ℤ
negated zero = pos 0
negated (suc n) = negsuc n

abbrev pub negative : Magnitude → ℤ × Bool
negative (exact n) = if leb n (2 ^ 63) then (negated n, true) else (negsuc (2 ^ 63 - 1), false)
negative overflow = (negsuc (2 ^ 63 - 1), false)
negative malformed = (pos 0, false)

unfoldable pub parse_int : Text → ℤ × Bool
parse_int [] = (pos 0, false)
parse_int (c ∷ s) =
    if c == b'-'
    then negative (unsigned s)
    else if c == b'+'
    then non_negative (unsigned s)
    else non_negative (unsigned (c ∷ s))

-- The digits of a number below 10 ^ fuel.
unfoldable pub show_digits : ℕ → ℕ → Text
show_digits zero n = []
show_digits (suc fuel) n =
    let rest = show_digits fuel (n / 10) in
    if ltb n 10 then (b'0' + n) ∷ [] else rest ++ (b'0' + n % 10) ∷ []

-- %d; a number of 64 bits has at most 20 digits.
unfoldable pub show_int : ℤ → Text
show_int (pos n) = show_digits 20 n
show_int (negsuc n) = b'-' ∷ show_digits 20 (suc n)
