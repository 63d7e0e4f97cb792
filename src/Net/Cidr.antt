-- ===== src/Net/Cidr.antt =====
-- SplitCIDR on the addresses that an administrator writes: a dotted address, with or without a
-- prefix length.
use dvarpala.Base.{
  ℕ, ◌+◌, ◌/◌, ◌%◌, ◌≤◌, ◌<◌, ◌≡◌, refl, ap, inl, inr, false, Text, List, [], ◌∷◌, ◌++◌, Option,
  none, some, ltb, ◌==◌, arith, Bool-cases, NoSpace, trim_space-NoSpace, All, All-map,
}
use dvarpala.Net.{
  digits_value, show_byte, show_ipv4, block_size, network_of, mask_of, is_ipv6, prefix_length,
  host_route, cut, split_cidr,
}
use dvarpala.Net.Bounds.{parse_ipv4-show_ipv4, network_of_bounds}

-- A byte of a dotted address: a digit or a dot.
abbrev IsDotted : ℕ → Type 0
IsDotted c = (46 ≤ c) × (c ≤ 57) × ((c == b'/') ≡ false)

All-append : {A : Type 0} (P : A → Type 0) (xs ys : List A) → All P xs → All P ys → All P (xs ++ ys)
All-append P [] ys h k = k
All-append P (x ∷ xs) ys (p, h) k = (p, All-append P xs ys h k)

IsDotted-show_byte : (b : ℕ) → b < 256 → All IsDotted (show_byte b)
unfolding show_byte
IsDotted-show_byte b h = elim (Bool-cases (ltb b 10)) [
  | inl e ↦ rw e (digit b (ground arith), tt)
  | inr e ↦ elim (Bool-cases (ltb b 100)) [
    | inl e' ↦ rw (e, e') (digit (b / 10) (ground arith), (digit (b % 10) (omega arith), tt))
    | inr e' ↦
        rw (e, e')
          (
            digit (b / 100) (omega arith),
            (digit (b / 10 % 10) (omega arith), (digit (b % 10) (omega arith), tt)),
          )
  ]
]
  where
    digit : (d : ℕ) → d < 10 → IsDotted (b'0' + d)
    digit d k = (omega arith, omega arith, ground arith)

IsDotted-show_ipv4 : (ip : ℕ) → ip < 4294967296 → All IsDotted (show_ipv4 ip)
unfolding show_ipv4
IsDotted-show_ipv4 ip h =
    let dot : IsDotted b'.' = (omega arith, omega arith, refl) in
    All-append IsDotted (show_byte (ip / 16777216)) _
      (IsDotted-show_byte (ip / 16777216) (omega arith))
      (
        dot,
        All-append IsDotted (show_byte (ip / 65536 % 256)) _
            (IsDotted-show_byte (ip / 65536 % 256) (omega arith))
            (
              dot,
              All-append IsDotted (show_byte (ip / 256 % 256)) _
                  (IsDotted-show_byte (ip / 256 % 256) (omega arith))
                  (dot, IsDotted-show_byte (ip % 256) (omega arith)),
            ),
      )

-- Text of digits, dots and slashes has no blank and is not IPv6.
abbrev IsPlain : ℕ → Type 0
IsPlain c = (46 ≤ c) × (c ≤ 57)

NoSpace-of_plain : (s : Text) → All IsPlain s → NoSpace s
NoSpace-of_plain s h = All-map (λ c k. ground arith) s h

is_ipv6_plain : (s : Text) → All IsPlain s → is_ipv6 s ≡ false
unfolding is_ipv6
is_ipv6_plain [] h = refl
is_ipv6_plain (c ∷ s) ((lo, hi), h) = ground (arith, is_ipv6_plain s h)

cut-none : (s : Text) → All IsDotted s → cut b'/' s ≡ none
unfolding cut
cut-none [] h = refl
cut-none (c ∷ s) ((lo, hi, ne), h) = ground (arith, cut-none s h)

cut-append : (s r : Text) → All IsDotted s → cut b'/' (s ++ (b'/' ∷ r)) ≡ some (s, r)
unfolding cut
cut-append [] r h = refl
cut-append (c ∷ s) r ((lo, hi, ne), h) = ground (arith, cut-append s r h)

prefix_length-show_byte : (n : ℕ) → n ≤ 32 → prefix_length (show_byte n) ≡ some n
unfolding prefix_length show_byte digits_value
prefix_length-show_byte n h = ground arith

module _ (v6 : Text → Option (Text × Text)) (ip : ℕ) (h : ip < 4294967296) where
  IsPlain-show_ipv4 : All IsPlain (show_ipv4 ip)
  IsPlain-show_ipv4 = All-map (λ c k. (k.0, k.1)) (show_ipv4 ip) (IsDotted-show_ipv4 ip h)

  split_cidr_host : split_cidr v6 (show_ipv4 ip) ≡ some (show_ipv4 ip, show_ipv4 4294967295)
  unfolding split_cidr
  split_cidr_host =
      let a = show_ipv4 ip in
      let t = trim_space-NoSpace a (NoSpace-of_plain a IsPlain-show_ipv4) in
      let four = is_ipv6_plain a IsPlain-show_ipv4 in
      rw (t, split_cidr)
        (rw (four, cut-none a (IsDotted-show_ipv4 ip h))
          (rw t (ap host_route (parse_ipv4-show_ipv4 ip h))))

  split_cidr_network :
      (n : ℕ)
      → n ≤ 32
      → split_cidr v6 (show_ipv4 ip ++ (b'/' ∷ show_byte n))
        ≡ some (show_ipv4 (network_of ip n), show_ipv4 (mask_of n))
  unfolding split_cidr
  split_cidr_network n le =
      let a = show_ipv4 ip ++ (b'/' ∷ show_byte n) in
      let plain : All IsPlain a =
        All-append IsPlain (show_ipv4 ip) (b'/' ∷ show_byte n) IsPlain-show_ipv4 (
          (omega arith, omega arith),
          All-map (λ c k. (k.0, k.1)) (show_byte n) (IsDotted-show_byte n (omega arith)),
        ) in
      let t = trim_space-NoSpace a (NoSpace-of_plain a plain) in
      let four = is_ipv6_plain a plain in
      let parts = cut-append (show_ipv4 ip) (show_byte n) (IsDotted-show_ipv4 ip h) in
      rw (t, split_cidr)
        (rw (four, parts) (rw (parse_ipv4-show_ipv4 ip h, prefix_length-show_byte n le) refl))

  -- SplitCIDR makes a host route of a dotted address, and of one with a prefix length n of at most
  -- 32 the network with the bits behind the prefix cleared, and its mask. That network has the
  -- address in it, among the 2 ^ (32 - n) addresses from the network's own.
  pub split_cidr_dotted :
      (n : ℕ)
      → n ≤ 32
      → (split_cidr v6 (show_ipv4 ip) ≡ some (show_ipv4 ip, show_ipv4 4294967295))
        × (split_cidr v6 (show_ipv4 ip ++ (b'/' ∷ show_byte n))
            ≡ some (show_ipv4 (network_of ip n), show_ipv4 (mask_of n)))
        × (network_of ip n ≤ ip)
        × (ip < network_of ip n + block_size n)
  split_cidr_dotted n le =
      let (lo, hi) = network_of_bounds ip n in (split_cidr_host, split_cidr_network n le, lo, hi)
