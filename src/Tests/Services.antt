-- ===== src/Tests/Services.antt =====
-- Accounts and domains on the small deployment.
use dvarpala.Base.{
  ◌≡◌, refl, false, [], ◌∷◌, none, some, codes, text_eq, trim_space, to_lower, find, any, keep,
  after_last?, strip_prefix?, ends_with,
}
use dvarpala.Platform.{World, ok, err, user_inactive, invalid_domain}
use dvarpala.Platform.Database.{empty_tables}
use dvarpala.Services.Users.{Account, account_of, normalise_email, deactivate_user, is_authorised}
use dvarpala.Services.Users.Standing.{deactivate-activate}
use dvarpala.Services.Domains.{normalise_domain, domain_of, add, allowed, seed_from_config}
use dvarpala.Services.Domains.AllowList.{add-allowed, seed_malformed}
use dvarpala.Tests.Local.{local, local-IsReliable, start, no_keys, sam, staff, small_tables}

abbrev sam_account : Account
sam_account = record { user = sam; groups = staff ∷ [] }

sam_has_account :
    account_of (normalise_email (codes " Sam@Acme.com")) small_tables ≡ some sam_account
unfolding normalise_email trim_space to_lower find any keep text_eq
sam_has_account = refl

same_address : normalise_email (codes "sam@acme.com ") ≡ normalise_email (codes " Sam@Acme.com")
unfolding normalise_email trim_space to_lower
same_address = refl

deactivate-activate_example :
    (is_authorised (codes "sam@acme.com ") (deactivate_user 5 (codes " Sam@Acme.com") start).1).0
    ≡ err user_inactive
deactivate-activate_example =
    (deactivate-activate local-IsReliable 5 9 (codes " Sam@Acme.com") (codes "sam@acme.com ")
      sam_account start sam_has_account same_address).1

is_new : find (λ row. text_eq row.domain (codes "corp.io")) start.database.domains.rows ≡ none
unfolding find text_eq
is_new = refl

corp_clean : normalise_domain (codes " @Corp.IO") ≡ ok (codes "corp.io")
unfolding normalise_domain trim_space to_lower text_eq any after_last? strip_prefix? ends_with
corp_clean = refl

ann_domain : domain_of (codes "ann@other.org") ≡ ok (codes "other.org")
unfolding domain_of trim_space to_lower after_last?
ann_domain = refl

-- Another domain is not let in by it.
add-allowed_example :
    (allowed (codes "ann@other.org") (add 5 (codes " @Corp.IO") [] [] start).1).0 ≡ ok false
unfolding any text_eq
add-allowed_example =
    (add-allowed local-IsReliable 5 (codes " @Corp.IO") (codes "corp.io") [] []
      (codes "ann@other.org") (codes "other.org") start corp_clean is_new ann_domain).1

abbrev bare : World local
bare = record { redis = no_keys; database = empty_tables }

not_a_domain : normalise_domain (codes "localhost") ≡ err invalid_domain
unfolding normalise_domain trim_space to_lower text_eq any after_last? strip_prefix? ends_with
not_a_domain = refl

seed_malformed_example :
    (seed_from_config 5 (codes "localhost" ∷ codes "corp.io" ∷ []) bare).0 ≡ err invalid_domain
seed_malformed_example =
    (seed_malformed local-IsReliable 5 (codes "localhost") (codes "corp.io" ∷ []) bare refl
      not_a_domain).0
