-- ===== src/Platform/Redis.antt =====
-- The documented meaning of the Redis commands that the program sends, on what a server holds.
-- A key with a deadline is gone from that time on.
use dvarpala.Models.{second}
use dvarpala.Base.{
  ◌*◌, ◌/◌, ◌&&◌, ◌≡◌, refl, false, text_eq_refl, ap, ◌∙◌, ℕ, ◌+◌, ◌-◌, Option, none, some, Text,
  text_eq, ltb, if◌then◌else◌,
}

-- A string, or one that holds a counter.
pub data Value : Type 0 where
  text : Text → Value
  number : ℕ → Value

pub record Cell : Type 0 where
  pub value : Value
  pub expires : Option ℕ

abbrev pub Keyspace : Type 0
Keyspace = Text → Option Cell

abbrev pub live : ℕ → Cell → Option Cell
live now c = elim c.expires [ none ↦ some c | some t ↦ if ltb now t then some c else none ]

abbrev pub live_at : ℕ → Option Cell → Option Cell
live_at now none = none
live_at now (some c) = live now c

-- What a key holds at a time.
unfoldable pub at : ℕ → Text → Keyspace → Option Cell
at now k m = live_at now (m k)

abbrev pub text_of : Option Cell → Option Text
text_of none = none
text_of (some c) = elim c.value [ text t ↦ some t | number n ↦ none ]

abbrev pub number_of : Option Cell → Option ℕ
number_of none = none
number_of (some c) = elim c.value [ text t ↦ none | number n ↦ some n ]

-- GET, as text and as a number.
abbrev pub get : ℕ → Text → Keyspace → Option Text
get now k m = text_of (at now k m)

abbrev pub get_number : ℕ → Text → Keyspace → Option ℕ
get_number now k m = number_of (at now k m)

abbrev pub millisecond : ℕ
millisecond = 1000000

-- TTL, as a duration: Redis rounds the milliseconds that are left to whole seconds, half a second
-- up. It is 0 for a key without a deadline and one that is not there, where go-redis has a negative
-- number.
abbrev pub ttl_of : ℕ → Option Cell → ℕ
ttl_of now none = 0
ttl_of now (some c) = elim c.expires [
  | none ↦ 0
  | some t ↦ (t / millisecond - now / millisecond + 500) / 1000 * second
]

abbrev pub ttl : ℕ → Text → Keyspace → ℕ
ttl now k m = ttl_of now (at now k m)

abbrev pub update : Text → Option Cell → Keyspace → Keyspace
update k c m j = if text_eq k j then c else m j

-- SET with an expiry.
abbrev pub set : ℕ → Text → Text → ℕ → Keyspace → Keyspace
set now k v life = update k (some (record { value = text v; expires = some (now + life) }))

-- DEL
abbrev pub del : Text → Keyspace → Keyspace
del k = update k none

-- INCR: a missing key counts from 0 and has no deadline; a counter keeps its deadline.
abbrev pub incr_cell : Option Cell → Option Cell
incr_cell none = some (record { value = number 1; expires = none })
incr_cell (some c) =
    some (record c { value = elim c.value [ text t ↦ text t | number n ↦ number (n + 1) ] })

abbrev pub incr : ℕ → Text → Keyspace → Keyspace
incr now k m = update k (incr_cell (at now k m)) m

-- A duration as go-redis passes it to EXPIRE: whole seconds, and one second where it is less.
abbrev pub whole_seconds : ℕ → ℕ
whole_seconds life = if ltb 0 life && ltb life second then second else life / second * second

-- EXPIRE, of a key that is there.
abbrev pub expire_cell : ℕ → Option Cell → Option Cell
expire_cell t none = none
expire_cell t (some c) = some (record c { expires = some t })

abbrev pub expire : ℕ → Text → ℕ → Keyspace → Keyspace
expire now k life m = update k (expire_cell (now + life) (at now k m)) m

update_ne :
    (k j : Text) (c : Option Cell) (m : Keyspace) → text_eq k j ≡ false → update k c m j ≡ m j
update_ne k j c m h = rw h refl

update_self : (k : Text) (c : Option Cell) (m : Keyspace) → update k c m k ≡ c
update_self k c m = rw (text_eq_refl k) refl

-- A write to one key leaves what another holds.
pub at-update_ne :
    (now : ℕ) (k j : Text) (c : Option Cell) (m : Keyspace)
    → text_eq k j ≡ false
    → at now j (update k c m) ≡ at now j m
unfolding at
at-update_ne now k j c m h = ap (live_at now) (update_ne k j c m h)

pub at-update_self :
    (now : ℕ) (k : Text) (c : Option Cell) (m : Keyspace) → at now k (update k c m) ≡ live_at now c
unfolding at
at-update_self now k c m = ap (live_at now) (update_self k c m)

pub at-expire :
    (now life later : ℕ) (k : Text) (m : Keyspace) (c : Cell)
    → at now k m ≡ some c
    → at later k (expire now k life m)
      ≡ (if ltb later (now + life) then some (record c { expires = some (now + life) }) else none)
at-expire now life later k m c h =
    at-update_self later k _ m ∙ ap (λ o. live_at later (expire_cell (now + life) o)) h
