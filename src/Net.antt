-- ===== src/Net.antt =====
-- The parts of package net that the program calls on IPv4 addresses, and SplitCIDR of
-- internal/services/resource.go. An address is a number below 2 ^ 32.
pub mod Bounds
pub mod Cidr
use dvarpala.Base.{
  ℕ, zero, suc, ◌+◌, ◌-◌, ◌*◌, ◌/◌, ◌%◌, ◌^◌, ◌&&◌, ◌||◌, Bool, true, false, Text, List, [], ◌∷◌,
  ◌++◌, Option, none, some, is_empty, trim_space, leb, ltb, ◌==◌, if◌then◌else◌, any, length, not,
  map,
}

abbrev pub is_digit : ℕ → Bool
is_digit c = leb b'0' c && leb c b'9'

-- The value of a text of decimal digits, behind the digits read so far.
unfoldable pub digits_value : ℕ → Text → Option ℕ
digits_value acc [] = some acc
digits_value acc (c ∷ s) = if is_digit c then digits_value (acc * 10 + (c - b'0')) s else none

-- A byte of a dotted address: one to three digits, no leading zero, at most 255.
unfoldable pub octet? : Text → Option ℕ
octet? [] = none
octet? (c ∷ s) =
    if ltb 3 (length (c ∷ s)) || (c == b'0' && not (is_empty s))
    then none
    else elim (digits_value 0 (c ∷ s)) [ none ↦ none | some n ↦ if ltb 255 n then none else some n ]

abbrev pub cons_part : ℕ → ℕ → List Text → List Text
cons_part c d [] = []
cons_part c d (p ∷ ps) = if d == c then [] ∷ p ∷ ps else (d ∷ p) ∷ ps

-- Text cut at each occurrence of a byte.
unfoldable pub split_at : ℕ → Text → List Text
split_at c [] = [] ∷ []
split_at c (d ∷ s) = cons_part c d (split_at c s)

abbrev pub four_octets : List (Option ℕ) → Option ℕ
four_octets (some a ∷ some b ∷ some c ∷ some d ∷ []) = some (((a * 256 + b) * 256 + c) * 256 + d)
four_octets _ = none

unfoldable pub parse_ipv4 : Text → Option ℕ
parse_ipv4 s = four_octets (map octet? (split_at b'.' s))

-- IP.String on an IPv4 address.
unfoldable pub show_byte : ℕ → Text
show_byte b =
    if ltb b 10
    then (b'0' + b) ∷ []
    else if ltb b 100
    then (b'0' + b / 10) ∷ (b'0' + b % 10) ∷ []
    else (b'0' + b / 100) ∷ (b'0' + b / 10 % 10) ∷ (b'0' + b % 10) ∷ []

unfoldable pub show_ipv4 : ℕ → Text
show_ipv4 ip =
    show_byte (ip / 16777216)
    ++ (b'.'
        ∷ (show_byte (ip / 65536 % 256)
            ++ (b'.' ∷ (show_byte (ip / 256 % 256) ++ (b'.' ∷ show_byte (ip % 256))))))

-- ParseIP reads IPv6 where a colon stands before any dot.
unfoldable pub is_ipv6 : Text → Bool
is_ipv6 [] = false
is_ipv6 (c ∷ s) = if c == b'.' then false else c == b':' || is_ipv6 s

-- 2 ^ (32 - n): the addresses of a network with a prefix of n bits.
abbrev pub block_size : ℕ → ℕ
block_size n = 2 ^ (32 - n)

abbrev pub network_of : ℕ → ℕ → ℕ
network_of ip n = ip / block_size n * block_size n

-- CIDRMask(n, 32)
abbrev pub mask_of : ℕ → ℕ
mask_of n = 4294967296 - block_size n

-- The number behind the slash: dtoi.
unfoldable pub prefix_length : Text → Option ℕ
prefix_length [] = none
prefix_length (c ∷ s) = elim (digits_value 0 (c ∷ s)) [
  | none ↦ none
  | some n ↦ if ltb 32 n then none else some n
]

-- The network and the netmask of an address with a prefix length.
abbrev pub routed : Option ℕ → Option ℕ → Option (Text × Text)
routed (some ip) (some n) = some (show_ipv4 (network_of ip n), show_ipv4 (mask_of n))
routed _ _ = none

abbrev pub host_route : Option ℕ → Option (Text × Text)
host_route none = none
host_route (some ip) = some (show_ipv4 ip, show_ipv4 4294967295)

-- The text before the first slash, and what follows it.
unfoldable pub cut : ℕ → Text → Option (Text × Text)
cut c [] = none
cut c (d ∷ s) =
    let rest = cut c s in
    if d == c then some ([], s) else elim rest [ none ↦ none | some (a, b) ↦ some (d ∷ a, b) ]

unfoldable pub split_cidr : (Text → Option (Text × Text)) → Text → Option (Text × Text)
split_cidr split_ipv6 addr =
    let a = trim_space addr in
    if is_ipv6 a then split_ipv6 a else elim (cut b'/' a) [
      | none ↦ host_route (parse_ipv4 a)
      | some (ip, mask) ↦ routed (parse_ipv4 ip) (prefix_length mask)
    ]
