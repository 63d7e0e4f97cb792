-- ===== src/Services/Domains.antt =====
-- internal/services/domain.go: the email domains that may sign in.
pub mod AllowList
use dvarpala.Base.{
  ℕ, ◌&&◌, ◌||◌, not, Bool, true, false, Text, codes, List, [], ◌∷◌, Option, none, some, map, keep,
  find, any, length, is_empty, to_lower, trim_space, trim_prefix, has_prefix, text_eq, ltb, ◌==◌,
  if◌then◌else◌, contains_any, sort_by, after_last?, ends_with,
}
use dvarpala.Models.{AllowedDomain, Detail, text, number, flag}
use dvarpala.Platform.{
  Env, Exec, World, Result, ok, err, Error, invalid_domain, domain_exists, domain_not_found, pure,
  raise, lift, catch, ◌>>=◌, ◌>>◌, select, execute, insert,
}
use dvarpala.Platform.Database.{Table, Tables, add_row}
use dvarpala.Services.Audit.{Entry, log}

-- What follows the last "@", or the whole.
abbrev pub last_part : Text → Text
last_part s = elim (after_last? b'@' s) [ none ↦ s | some r ↦ r ]

-- " \t/\\:"
abbrev pub is_foreign : ℕ → Bool
is_foreign c = c == 32 || c == 9 || c == b'/' || c == 92 || c == b':'

abbrev pub is_dot : ℕ → Bool
is_dot c = c == b'.'

unfoldable pub normalise_domain : Text → Result Text
normalise_domain domain =
    let clean = last_part (trim_prefix (b'@' ∷ []) (to_lower (trim_space domain))) in
    if is_empty clean
    then err invalid_domain
    else if contains_any is_foreign clean
    then err invalid_domain
    else if not (contains_any is_dot clean)
    then err invalid_domain
    else if has_prefix (b'.' ∷ []) clean || ends_with b'.' clean
    then err invalid_domain
    else ok clean

unfoldable pub domain_of : Text → Result Text
domain_of email = elim (after_last? b'@' email) [
  | none ↦ err invalid_domain
  | some r ↦ ok (to_lower (trim_space r))
]

abbrev pub is_domain : Text → AllowedDomain → Bool
is_domain d row = text_eq row.domain d

abbrev pub new_domain : Text → Text → Text → ℕ → AllowedDomain
new_domain domain added_by note id = record {
  id = id;
  domain = domain;
  added_by = added_by;
  note = note;
}

-- What is recorded of a domain that is put on the list.
abbrev pub addition : AllowedDomain → Entry
addition row = record {
  user_id = none;
  action = "allowed_domain_added";
  resource_type = "allowed_domain";
  resource_id = some row.id;
  ip_address = [];
  details =
      ("domain", text row.domain) ∷ ("added_by", text row.added_by) ∷ ("note", text row.note) ∷ [];
}

abbrev pub delete_domain : ℕ → Tables → Tables
delete_domain id t = record t {
  domains = record (t.domains) {
    rows = keep (λ (d : AllowedDomain). not (d.id == id)) t.domains.rows;
  };
}

abbrev pub is_domain_exists : Error → Bool
is_domain_exists domain_exists = true
is_domain_exists _ = false

abbrev pub seed_note : Text
seed_note = codes "seeded from configuration at first start"

-- A comes before B in the order of bytes, or is B.
unfoldable pub text_leb : Text → Text → Bool
text_leb [] t = true
text_leb (c ∷ s) [] = false
text_leb (c ∷ s) (d ∷ t) = ltb c d || (c == d && text_leb s t)

module _ {env : Env} where
  -- List, ORDER BY domain.
  abbrev pub list : Exec env (List AllowedDomain)
  list = select (λ t.
      sort_by (λ (a : AllowedDomain) (b : AllowedDomain). text_leb a.domain b.domain)
        t.domains.rows)

  -- Allowed, for the domain of the address or what was wrong with the address.
  unfoldable pub domain_listed : Result Text → Exec env Bool
  domain_listed (err e) = pure false
  domain_listed (ok domain) = do
    total ← select (λ t. length t.domains.rows)
    if total == 0 then pure true else do
      match ← select (λ t. length (keep (is_domain domain) t.domains.rows))
      pure (ltb 0 match)

  unfoldable pub allowed : Text → Exec env Bool
  unfolding domain_listed
  allowed email = domain_listed (domain_of email)

  unfoldable pub add : ℕ → Text → Text → Text → Exec env AllowedDomain
  add now domain added_by note = do
    clean ← lift (normalise_domain domain)
    existing ← select (λ t. find (is_domain clean) t.domains.rows)
    elim existing [
      | some d ↦ raise domain_exists
      | none ↦ do
        row ←
            insert (λ t. new_domain clean added_by note t.domains.next_id)
              (λ t. record t { domains = add_row (new_domain clean added_by note) t.domains })
        log now (addition row)
        pure row
    ]

  abbrev pub found_domain : Option AllowedDomain → Exec env AllowedDomain
  found_domain none = raise domain_not_found
  found_domain (some d) = pure d

  -- The count of the domains left is 0 where it cannot be read.
  unfoldable pub remaining : Exec env ℕ
  remaining = catch (select (λ t. length t.domains.rows)) (λ n. pure n) (λ e. pure 0)

  unfoldable pub remove : ℕ → Text → Text → Exec env (Unit {0})
  remove now domain removed_by = do
    clean ← lift (normalise_domain domain)
    existing ← select (λ t. find (is_domain clean) t.domains.rows)
    row ← found_domain existing
    execute (delete_domain row.id)
    left ← remaining
    log now (record {
      user_id = none;
      action = "allowed_domain_removed";
      resource_type = "allowed_domain";
      resource_id = none;
      ip_address = [];
      details =
          ("domain", text clean)
          ∷ ("removed_by", text removed_by)
          ∷ ("remaining", number left)
          ∷ ("now_accepts_any_domain", flag (left == 0))
          ∷ [];
    })

  -- The loop of SeedFromConfig.
  unfoldable pub add_all : ℕ → List Text → Exec env (Unit {0})
  add_all now [] = pure tt
  add_all now (d ∷ ds) =
      let rest = add_all now ds in
      catch (add now d [] seed_note) (λ row. rest)
        (λ e. if is_domain_exists e then rest else raise e)

  unfoldable pub seed_from_config : ℕ → List Text → Exec env (Unit {0})
  seed_from_config now [] = pure tt
  seed_from_config now (d ∷ ds) = do
    total ← select (λ t. length t.domains.rows)
    if ltb 0 total then pure tt else add_all now (d ∷ ds)
