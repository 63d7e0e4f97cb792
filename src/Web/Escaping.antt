-- ===== src/Web/Escaping.antt =====
-- The queries of the portal's redirects: url.QueryEscape, and how a server takes a query apart.
use dvarpala.Base.{
  is_unreserved, hex_digit, query_escape, ℕ, ◌+◌, ◌-◌, ◌*◌, ◌/◌, ◌%◌, ◌<◌, ◌≡◌, refl, sym, ap, ◌∙◌,
  Bool, true, false, ◌&&◌, ◌||◌, Text, codes, List, [], ◌∷◌, ◌++◌, Option, none, some, any,
  any-append, All, leb, ◌==◌, if◌then◌else◌, arith, inl, inr, Bool-cases,
}
use dvarpala.Net.{split_at}
use dvarpala.Web.Portal.{failure_url}

-- The value of a hexadecimal digit.
unfoldable pub hex_value : ℕ → Option ℕ
hex_value c =
    if leb b'0' c && leb c b'9'
    then some (c - b'0')
    else if leb b'A' c && leb c b'F'
    then some (c - b'A' + 10)
    else if leb b'a' c && leb c b'f'
    then some (c - b'a' + 10)
    else none

-- url.QueryUnescape: between bytes, behind a percent sign, or behind its first digit.
pub data Place : Type 0 where
  between behind_percent : Place
  behind_digit : ℕ → Place

abbrev consed : ℕ → Option Text → Option Text
consed c none = none
consed c (some s) = some (c ∷ s)

abbrev given : Option ℕ → (ℕ → Option Text) → Option Text
given none f = none
given (some v) f = f v

unfoldable pub unescape_at : Place → Text → Option Text
unescape_at between [] = some []
unescape_at between (c ∷ s) =
    let rest = unescape_at between s in
    let escaped = unescape_at behind_percent s in
    if c == b'%' then escaped else consed (if c == b'+' then 32 else c) rest
unescape_at behind_percent [] = none
unescape_at behind_percent (c ∷ s) = given (hex_value c) (λ v. unescape_at (behind_digit v) s)
unescape_at (behind_digit v) [] = none
unescape_at (behind_digit v) (c ∷ s) =
    given (hex_value c) (λ u. consed (v * 16 + u) (unescape_at between s))

abbrev pub query_unescape : Text → Option Text
query_unescape s = unescape_at between s

hex_value-hex_digit : (d : ℕ) → d < 16 → hex_value (hex_digit d) ≡ some d
unfolding hex_value
hex_value-hex_digit d h = ground arith

unescape_at-percent :
    (h l a b : ℕ) (s : Text)
    → hex_value h ≡ some a
    → hex_value l ≡ some b
    → unescape_at between (b'%' ∷ h ∷ l ∷ s) ≡ consed (a * 16 + b) (unescape_at between s)
unfolding unescape_at
unescape_at-percent h l a b s high low = rw (high, low) refl

unescape_at-hex :
    (c : ℕ) (s : Text)
    → c < 256
    → unescape_at between (b'%' ∷ hex_digit (c / 16) ∷ hex_digit (c % 16) ∷ s)
      ≡ consed c (unescape_at between s)
unescape_at-hex c s lt =
    let whole : c / 16 * 16 + c % 16 ≡ c = omega arith in
    unescape_at-percent (hex_digit (c / 16)) (hex_digit (c % 16)) (c / 16) (c % 16) s
      (hex_value-hex_digit (c / 16) (omega arith)) (hex_value-hex_digit (c % 16) (omega arith))
    ∙ ap (λ x. consed x (unescape_at between s)) whole

unescape_at-byte :
    (c : ℕ) (s : Text)
    → is_unreserved c ≡ true
    → unescape_at between (c ∷ s) ≡ consed c (unescape_at between s)
unfolding unescape_at
unescape_at-byte c s h =
    let percent : (c == b'%') ≡ false = ground arith in
    let plus : (c == b'+') ≡ false = ground arith in rw (percent, plus) refl

query_unescape-query_escape :
    (s : Text) → All (λ c. c < 256) s → query_unescape (query_escape s) ≡ some s
unfolding query_escape unescape_at
query_unescape-query_escape [] h = refl
query_unescape-query_escape (c ∷ s) (lt, h) =
    let rest = query_unescape-query_escape s h in
    elim (Bool-cases (is_unreserved c)) [
      | inl e ↦ rw e (unescape_at-byte c (query_escape s) e ∙ ap (consed c) rest)
      | inr e ↦ elim (Bool-cases (c == 32)) [
        | inl b ↦ rw (e, b) (ground arith)
        | inr b ↦ rw (e, b) (unescape_at-hex c (query_escape s) lt ∙ ap (consed c) rest)
      ]
    ]

abbrev has_ampersand : Text → Bool
has_ampersand s = any (λ c. c == b'&') s

query_escape_plain : (s : Text) → All (λ c. c < 256) s → has_ampersand (query_escape s) ≡ false
unfolding query_escape any
query_escape_plain [] h = refl
query_escape_plain (c ∷ s) (lt, h) = ground (arith, query_escape_plain s h)

split_at_plain : (s : Text) → has_ampersand s ≡ false → split_at b'&' s ≡ s ∷ []
unfolding split_at any
split_at_plain [] h = refl
split_at_plain (c ∷ s) h = ground (arith, split_at_plain s)

split_at-cons : (s : Text) → (p : Text) × (ps : List Text) × (split_at b'&' s ≡ p ∷ ps)
unfolding split_at
split_at-cons [] = ([], [], refl)
split_at-cons (c ∷ s) =
    let (p, ps, e) = split_at-cons s in
    elim (Bool-cases (c == b'&')) [
      | inl h ↦ ([], p ∷ ps, ground arith)
      | inr h ↦ (c ∷ p, ps, ground arith)
    ]

split_at-append :
    (s t : Text) → has_ampersand s ≡ false → split_at b'&' (s ++ b'&' ∷ t) ≡ s ∷ split_at b'&' t
unfolding split_at any
split_at-append [] t h = let (p, ps, e) = split_at-cons t in ground arith
split_at-append (c ∷ s) t h = ground (arith, split_at-append s t)

-- What a query's field says: behind its name, a value that is read back.
abbrev pub Field : Text → Text → Text → Type 0
Field name value field =
    (escaped : Text) × (field ≡ name ++ escaped) × (query_unescape escaped ≡ some value)

Field-of :
    (name value : Text) → All (λ c. c < 256) value → Field name value (name ++ query_escape value)
Field-of name value h = (query_escape value, refl, query_unescape-query_escape value h)

append_assoc : (s t u : Text) → (s ++ t) ++ u ≡ s ++ (t ++ u)
append_assoc [] t u = refl
append_assoc (c ∷ s) t u = ap (◌∷◌ c) (append_assoc s t u)

first_field :
    (name value rest : Text)
    → has_ampersand name ≡ false
    → All (λ c. c < 256) value
    → split_at b'&' (name ++ query_escape value ++ b'&' ∷ rest)
      ≡ (name ++ query_escape value) ∷ split_at b'&' rest
first_field name value rest h bytes = split_at-append (name ++ query_escape value) rest (
    any-append (λ c. c == b'&') name (query_escape value)
    ∙ rw (h, query_escape_plain value bytes) refl)

failure_url_parts :
    (provider code reason : Text)
    → failure_url provider code reason
      ≡ (codes "/auth/error?code=" ++ query_escape code)
        ++ b'&'
          ∷ ((codes "reason=" ++ query_escape reason)
              ++ b'&' ∷ (codes "provider=" ++ query_escape provider))
unfolding failure_url
failure_url_parts provider code reason =
    let X = codes "/auth/error?code=" ++ query_escape code in
    let R = codes "&reason=" in
    let P = codes "&provider=" in
    let er = query_escape reason in
    let ep = query_escape provider in
    append_assoc ((X ++ R) ++ er) P ep
    ∙ append_assoc (X ++ R) er (P ++ ep)
    ∙ append_assoc X R (er ++ (P ++ ep))
    ∙ ap (λ s. X ++ b'&' ∷ s) (sym (append_assoc (codes "reason=") er (P ++ ep)))

-- Whatever the provider, the code and the reason are, as bytes: the redirect of a failure has three
-- fields, in this order, from which a server reads the code, the reason and the provider back.
pub failure_url-Field :
    (provider code reason : Text)
    → All (λ c. c < 256) provider
    → All (λ c. c < 256) code
    → All (λ c. c < 256) reason
    → (a : Text) × (b : Text) × (c : Text) × (split_at b'&' (failure_url provider code reason)
        ≡ a ∷ b ∷ c ∷ [])
      × Field (codes "/auth/error?code=") code a
      × Field (codes "reason=") reason b
      × Field (codes "provider=") provider c
unfolding any
failure_url-Field provider code reason p c r =
    let X = codes "/auth/error?code=" ++ query_escape code in
    let Y = codes "reason=" ++ query_escape reason in
    let last = codes "provider=" ++ query_escape provider in
    (
      X,
      Y,
      last,
      ap (split_at b'&') (failure_url_parts provider code reason)
          ∙ first_field (codes "/auth/error?code=") code (Y ++ b'&' ∷ last) refl c
          ∙ ap (◌∷◌ X) (
              first_field (codes "reason=") reason last refl r
              ∙ ap (◌∷◌ Y) (
                  split_at_plain last (
                    any-append (λ x. x == b'&') (codes "provider=") (query_escape provider)
                    ∙ ap (λ b. false || b) (query_escape_plain provider p)))),
      Field-of (codes "/auth/error?code=") code c,
      Field-of (codes "reason=") reason r,
      Field-of (codes "provider=") provider p,
    )
