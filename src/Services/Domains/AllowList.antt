-- ===== src/Services/Domains/AllowList.antt =====
-- Whom the allow-list lets in, as administrators and the configuration change it.
use dvarpala.Base.{
  ℕ, ◌≡◌, refl, ap, ◌∙◌, Bool, true, none, Text, List, [], ◌∷◌, ◌++◌, text_eq, ◌||◌, find, any,
  keep, length, ltb, count-any, any-append, arith, ◌==◌, if◌then◌else◌,
}
use dvarpala.Models.{AllowedDomain}
use dvarpala.Platform.{
  Env, World, IsReliable, Result, ok, err, invalid_domain, ◌>>=◌, catch, select, insert, tables,
}
use dvarpala.Platform.Database.{Tables, add_row}
use dvarpala.Services.Audit.Writing.{log-ok, log-tables}
use dvarpala.Services.Domains.{
  normalise_domain, domain_of, domain_listed, is_domain, new_domain, allowed, add, add_all,
  seed_from_config, addition, seed_note,
}

abbrev pub domain_rows : Tables → List AllowedDomain
domain_rows t = t.domains.rows

-- Whether the list has a domain; an empty list has them all.
abbrev pub accepts : Text → List AllowedDomain → Bool
accepts d [] = true
accepts d (r ∷ rs) = any (is_domain d) (r ∷ rs)

accepts-eq :
    (d : Text) (rs : List AllowedDomain)
    → (if length rs == 0 then true else ltb 0 (length (keep (is_domain d) rs))) ≡ accepts d rs
accepts-eq d [] = refl
accepts-eq d (r ∷ rs) = ground (arith, count-any (is_domain d) (r ∷ rs))

accepts-added :
    (d : Text) (row : AllowedDomain) (rs : List AllowedDomain)
    → accepts d (rs ++ row ∷ []) ≡ (text_eq row.domain d || any (is_domain d) rs)
unfolding any
accepts-added d row [] = ground arith
accepts-added d row (r ∷ rs) = ground (arith, any-append (is_domain d) rs (row ∷ []))

module _ {env : Env} where
  domain_listed-ok :
      (r : Result Text) (w u : World env)
      → domain_listed r w ≡ (ok true, u)
      → ((d : Text) × (r ≡ ok d) × (accepts d (domain_rows (tables w)) ≡ true))
        × (tables u ≡ tables w)
  unfolding domain_listed select ◌>>=◌
  domain_listed-ok (err e) w u h = cc
  domain_listed-ok (ok d) w u h =
      let v = (select (λ t. length t.domains.rows) w).1 in
      (
        (
          d,
          refl,
          ground (arith, accepts-eq d (domain_rows (tables w)), env.database.view-query w.database),
        ),
        ground (arith, env.database.view-query w.database, env.database.view-query v.database),
      )

  -- An address that is let in has a domain that the list accepts.
  pub allowed-ok :
      (email : Text) (w u : World env)
      → allowed email w ≡ (ok true, u)
      → ((d : Text) × (domain_of email ≡ ok d) × (accepts d (domain_rows (tables w)) ≡ true))
        × (tables u ≡ tables w)
  unfolding allowed
  allowed-ok email w u h = domain_listed-ok (domain_of email) w u h

module _ {env : Env} (up : IsReliable env) where
  allowed-eq :
      (email d : Text) (w : World env)
      → domain_of email ≡ ok d
      → (allowed email w).0 ≡ ok (accepts d (domain_rows (tables w)))
  unfolding allowed select ◌>>=◌
  allowed-eq email d w h =
      let v = (select (λ t. length t.domains.rows) w).1 in
      rw (h, allowed)
        (ground (
          arith,
          accepts-eq d (domain_rows (tables w)),
          env.database.view-query w.database,
          up.database_up w.database,
          up.database_up v.database,
        ))

  -- The row that Add writes.
  abbrev added : Text → Text → Text → World env → AllowedDomain
  added clean added_by note w = new_domain clean added_by note (tables w).domains.next_id

  add-eq :
      (now : ℕ) (domain clean added_by note : Text) (w : World env)
      → normalise_domain domain ≡ ok clean
      → find (is_domain clean) (domain_rows (tables w)) ≡ none
      → let (r, w') = add now domain added_by note w in
        (r ≡ ok (added clean added_by note w))
        × (domain_rows (tables w') ≡ domain_rows (tables w) ++ added clean added_by note w ∷ [])
  unfolding add select insert ◌>>=◌
  add-eq now domain clean added_by note w h fresh =
      let v = (select (λ t. find (is_domain clean) t.domains.rows) w).1 in
      let q = λ (t : Tables). new_domain clean added_by note t.domains.next_id in
      let f =
        λ (t : Tables). record t { domains = add_row (new_domain clean added_by note) t.domains } in
      let u = (insert q f v).1 in
      let same = env.database.view-query w.database in
      let wrote = env.database.view-update f v.database (up.database_up v.database) in
      let e = addition (added clean added_by note w) in
      rw (h, add)
        (ground (
          arith,
          up.database_up w.database,
          up.database_up v.database,
          log-ok now e u,
          log-tables up now e u,
        ))

  -- On servers that answer: a well-formed domain that is not on the list and is put on it lets its
  -- addresses in, at once. Of the others just those stay let in whose domain was on the list
  -- before: an empty list has let in all, and now does not.
  pub add-allowed :
      (now : ℕ) (domain clean added_by note email d : Text) (w : World env)
      → normalise_domain domain ≡ ok clean
      → find (is_domain clean) (domain_rows (tables w)) ≡ none
      → domain_of email ≡ ok d
      → let (r, w') = add now domain added_by note w in
        (r ≡ ok (added clean added_by note w))
        × ((allowed email w').0
            ≡ ok (text_eq clean d || any (is_domain d) (domain_rows (tables w))))
  add-allowed now domain clean added_by note email d w h fresh e =
      let w' = (add now domain added_by note w).1 in
      let (r, k) = add-eq now domain clean added_by note w h fresh in
      (
        r,
        allowed-eq email d w' e
            ∙ ap ok (
                ap (accepts d) k
                ∙ accepts-added d (added clean added_by note w) (domain_rows (tables w))),
      )

  add_malformed :
      (now : ℕ) (d added_by note : Text) (w : World env)
      → normalise_domain d ≡ err invalid_domain
      → add now d added_by note w ≡ (err invalid_domain, w)
  unfolding add ◌>>=◌
  add_malformed now d added_by note w bad = rw (bad, add) refl

  add_all_malformed :
      (now : ℕ) (d : Text) (ds : List Text) (w : World env)
      → normalise_domain d ≡ err invalid_domain
      → add_all now (d ∷ ds) w ≡ (err invalid_domain, w)
  unfolding add_all catch
  add_all_malformed now d ds w bad = rw (add_malformed now d [] seed_note w bad, add_all) refl

  -- On servers that answer: a malformed entry at the head of the configured list ends the seeding
  -- of an empty list: the error is returned, and no domain is added, of the entries behind it
  -- neither.
  pub seed_malformed :
      (now : ℕ) (d : Text) (ds : List Text) (w : World env)
      → domain_rows (tables w) ≡ []
      → normalise_domain d ≡ err invalid_domain
      → let (r, w') = seed_from_config now (d ∷ ds) w in
        (r ≡ err invalid_domain) × (domain_rows (tables w') ≡ [])
  unfolding seed_from_config select ◌>>=◌
  seed_malformed now d ds w none_yet bad =
      let v = (select (λ t. length t.domains.rows) w).1 in
      ground (
        arith,
        env.database.view-query w.database,
        up.database_up w.database,
        add_all_malformed now d ds v bad,
      )
