-- ===== src/Net/Bounds.antt =====
-- IPv4 addresses as text, and the bounds of a network.
use dvarpala.Base.{
  ℕ, zero, suc, ◌+◌, ◌-◌, ◌*◌, ◌/◌, ◌%◌, ◌^◌, ◌≤◌, ◌<◌, ◌≡◌, refl, ap, ◌∙◌, Bool, false, Text, List,
  [], ◌∷◌, ◌++◌, Option, some, ◌==◌, map, any, arith, Bool-cases, inl, inr,
}
use native.Mathlib.Nat.{div-mul-le_self, mod-lt, mod-add-div, mul_comm}
use dvarpala.Net.{
  digits_value, octet?, split_at, four_octets, parse_ipv4, show_byte, show_ipv4, block_size,
  network_of,
}

octet?-show_byte : (b : ℕ) → b < 256 → octet? (show_byte b) ≡ some b
unfolding octet? show_byte digits_value
octet?-show_byte b h = ground arith

abbrev has_dot : Text → Bool
has_dot s = any (λ c. c == b'.') s

has_dot-show_byte : (b : ℕ) → b < 256 → has_dot (show_byte b) ≡ false
unfolding show_byte any
has_dot-show_byte b h = ground arith

-- A text has a first part.
split_at_first : (c : ℕ) (s : Text) → (p : Text) × (ps : List Text) × (split_at c s ≡ p ∷ ps)
unfolding split_at
split_at_first c [] = ([], [], refl)
split_at_first c (d ∷ s) =
    let (p, ps, e) = split_at_first c s in
    elim (Bool-cases (d == c)) [
      | inl h ↦ ([], p ∷ ps, ground arith)
      | inr h ↦ (d ∷ p, ps, ground arith)
    ]

split_at-append :
    (s r : Text) → has_dot s ≡ false → split_at b'.' (s ++ (b'.' ∷ r)) ≡ s ∷ split_at b'.' r
unfolding split_at any
split_at-append [] r h = let (p, ps, e) = split_at_first b'.' r in ground arith
split_at-append (c ∷ s) r h = ground (arith, split_at-append s r)

split_at_last : (s : Text) → has_dot s ≡ false → split_at b'.' s ≡ s ∷ []
unfolding split_at any
split_at_last [] h = refl
split_at_last (c ∷ s) h = ground (arith, split_at_last s)

four_octets-some :
    (a b c d : ℕ) {w x y z : Option ℕ}
    → w ≡ some a
    → x ≡ some b
    → y ≡ some c
    → z ≡ some d
    → four_octets (w ∷ x ∷ y ∷ z ∷ []) ≡ some (((a * 256 + b) * 256 + c) * 256 + d)
four_octets-some a b c d h k l m = rw (h, k, l, m) refl

module _ (ip : ℕ) (h : ip < 4294967296) where
  show_ipv4-parts :
      split_at b'.' (show_ipv4 ip)
      ≡ show_byte (ip / 16777216)
        ∷ show_byte (ip / 65536 % 256)
        ∷ show_byte (ip / 256 % 256)
        ∷ show_byte (ip % 256)
        ∷ []
  unfolding show_ipv4
  show_ipv4-parts =
      let a = show_byte (ip / 16777216) in
      let b = show_byte (ip / 65536 % 256) in
      let c = show_byte (ip / 256 % 256) in
      let d = show_byte (ip % 256) in
      split_at-append a _ (has_dot-show_byte (ip / 16777216) (omega arith))
      ∙ ap (λ x. a ∷ x) (split_at-append b _ (has_dot-show_byte (ip / 65536 % 256) (omega arith)))
      ∙ ap (λ x. a ∷ b ∷ x) (split_at-append c _ (has_dot-show_byte (ip / 256 % 256) (omega arith)))
      ∙ ap (λ x. a ∷ b ∷ c ∷ x) (split_at_last d (has_dot-show_byte (ip % 256) (omega arith)))

  -- An IPv4 address is read back from its dotted form.
  pub parse_ipv4-show_ipv4 : parse_ipv4 (show_ipv4 ip) ≡ some ip
  unfolding parse_ipv4
  parse_ipv4-show_ipv4 =
      ap (λ x. four_octets (map octet? x)) show_ipv4-parts
      ∙ four_octets-some (ip / 16777216) (ip / 65536 % 256) (ip / 256 % 256) (ip % 256)
          (octet?-show_byte (ip / 16777216) (omega arith))
          (octet?-show_byte (ip / 65536 % 256) (omega arith))
          (octet?-show_byte (ip / 256 % 256) (omega arith))
          (octet?-show_byte (ip % 256) (omega arith))
      ∙ ap some (omega arith)

block_size_pos : (n : ℕ) → 0 < block_size n
block_size_pos n = pow_pos (32 - n)
  where
    pow_pos : (k : ℕ) → 0 < 2 ^ k
    pow_pos zero = omega arith
    pow_pos (suc k) = let h = pow_pos k in omega arith

-- A network holds the address that it is made of, and block_size addresses from its first on.
pub network_of_bounds : (ip n : ℕ) → (network_of ip n ≤ ip) × (ip < network_of ip n + block_size n)
network_of_bounds ip n =
    let k = block_size n in
    (
      div-mul-le_self ip k,
      let r = mod-lt ip (block_size_pos n) in
          let e = ap (λ x. ip % k + x) (mul_comm (ip / k) k) ∙ mod-add-div ip k in
          small (ip / k * k) (ip % k) k e r,
    )
  where
    small : (q r k : ℕ) → r + q ≡ ip → r < k → ip < q + k
    small q r k e h = omega arith
