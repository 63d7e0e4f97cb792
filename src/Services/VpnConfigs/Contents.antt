-- ===== src/Services/VpnConfigs/Contents.antt =====
-- What is in a configuration that Issue stores: internal/services/vpnconfig.go (buildProfile, Issue)
-- and internal/vpn/pki.go (IssueClient).
use dvarpala.Base.{
  ℕ, zero, suc, ◌+◌, ◌*◌, ◌-◌, ◌≡◌, refl, sym, ap, ◌∙◌, subst, inl, inr, false, Text, codes, [],
  ◌∷◌, ◌++◌, some, is_empty, if◌then◌else◌, arith, Option-cases, ℤ, pos, negsuc,
}
use dvarpala.Models.{VpnConfig, second}
use dvarpala.Platform.{ok}
use dvarpala.Vpn.Authority.{
  Ca, ClientCredential, Template, Signed, client_auth, client_template, issue_client,
}
use dvarpala.Services.VpnConfigs.{
  VpnConfigService, new_config, build_profile, profile_head, element, crypt_element,
}

-- A text with another inside it.
abbrev pub Contains : Text → Text → Type 0
Contains s part = (a : Text) × (b : Text) × (s ≡ a ++ part ++ b)

append_assoc : (s t u : Text) → (s ++ t) ++ u ≡ s ++ (t ++ u)
append_assoc [] t u = refl
append_assoc (c ∷ s) t u = ap (◌∷◌ c) (append_assoc s t u)

Contains-before : (s t part : Text) → Contains s part → Contains (s ++ t) part
Contains-before s t part (a, b, e) = (a, b ++ t, ap (λ x. x ++ t) e ∙ append_assoc (a ++ part) b t)

append-nil : (s : Text) → s ++ [] ≡ s
append-nil [] = refl
append-nil (c ∷ s) = ap (◌∷◌ c) (append-nil s)

Contains-last : (s part : Text) → Contains (s ++ part) part
Contains-last s part = (s, [], sym (append-nil (s ++ part)))

-- A validity that is positive, from now on; any other is a year.
abbrev pub Lasts : ℕ → ℤ → ℕ → Type 0
Lasts now (pos zero) end = end ≡ now + 31536000 * second
Lasts now (pos (suc n)) end = end ≡ now + suc n
Lasts now (negsuc n) end = end ≡ now + 31536000 * second

-- A client certificate of an address, which the authority has signed.
abbrev pub IsSigned : Ca → ℕ → Text → ℤ → Template → Signed → Type 0
IsSigned ca now address validity t s =
    (ca.sign t ≡ some s)
    × (t.common_name ≡ address)
    × (t.ext_key_usage ≡ client_auth)
    × (t.not_before ≡ now - 300 * second)
    × Lasts now validity t.not_after

-- The three elements of a profile.
abbrev pub HasElements : Text → Text → Text → Text → Type 0
HasElements profile authority certificate key =
    Contains profile (codes "<ca>\n" ++ authority ++ codes "</ca>\n")
    × Contains profile (codes "<cert>\n" ++ certificate ++ codes "</cert>\n")
    × Contains profile (codes "<key>\n" ++ key ++ codes "</key>\n")

-- The certificate, its key and that of the authority, each in its column and in the profile, and
-- the end of the certificate.
abbrev pub Carries : Ca → Template → Signed → VpnConfig → Type 0
Carries ca t s c =
    (c.client_cert ≡ s.certificate)
    × (c.client_key ≡ s.private_key)
    × (c.ca_cert ≡ ca.certificate_pem)
    × (c.expires_at ≡ some t.not_after)
    × HasElements c.config_data ca.certificate_pem s.certificate s.private_key

Lasts-client_template :
    (now : ℕ) (address : Text) (validity : ℤ)
    → Lasts now validity (client_template now address validity).not_after
Lasts-client_template now address (pos zero) = refl
Lasts-client_template now address (pos (suc n)) = refl
Lasts-client_template now address (negsuc n) = refl

-- Behind a credential is a template that the authority signed.
issue_client-ok :
    (ca : Ca) (now : ℕ) (address : Text) (validity : ℤ) {cred : ClientCredential}
    → issue_client ca now address validity ≡ ok cred
    → let t = client_template now address validity in
      (is_empty address ≡ false)
      × ((s : Signed) × (ca.sign t ≡ some s)
          × (cred.certificate ≡ s.certificate)
          × (cred.private_key ≡ s.private_key)
          × (cred.not_after ≡ t.not_after))
unfolding issue_client
issue_client-ok ca now address validity {cred} h =
    let t = client_template now address validity in
    elim (Option-cases (ca.sign t)) [
      | inl e ↦ absurd (ground arith)
      | inr (s, e) ↦ (ground arith, (s, e, ground arith, ground arith, ground arith))
    ]

three_parts :
    (head a b c line tail : Text)
    → let whole = head ++ a ++ line ++ b ++ line ++ c ++ tail in
      Contains whole a × Contains whole b × Contains whole c
three_parts head a b c line tail =
    let first = head ++ a ++ line in
    let second = first ++ b ++ line in
    let upto_b = Contains-before (first ++ b) line b (Contains-last first b) in
    let upto_a = Contains-before (head ++ a) line a (Contains-last head a) in
    (
      Contains-before (second ++ c) tail a (
          Contains-before second c a
            (Contains-before (first ++ b) line a (Contains-before first b a upto_a))),
      Contains-before (second ++ c) tail b (Contains-before second c b upto_b),
      Contains-before (second ++ c) tail c (Contains-last second c),
    )

build_profile-HasElements :
    (s : VpnConfigService) (ca : Ca) (now : ℕ) (cred : ClientCredential)
    → HasElements (build_profile s ca now cred) ca.certificate_pem cred.certificate cred.private_key
unfolding build_profile
build_profile-HasElements s ca now cred =
    three_parts (profile_head s now cred) (element (codes "ca") ca.certificate_pem)
      (element (codes "cert") cred.certificate) (element (codes "key") cred.private_key)
      (codes "\n") (crypt_element s.server.tls_crypt_k)

-- Who a configuration is for, and that it carries what the authority signed for the address.
abbrev pub Carried : VpnConfigService → Ca → ℕ → ℕ → Text → Text → ℤ → VpnConfig → Type 0
Carried s ca now user_id address config_name validity c =
    (c.user_id ≡ user_id)
    × (c.config_name ≡ (if is_empty config_name then codes "default" else config_name))
    × (is_empty address ≡ false)
    × ((t : Template) × (signed : Signed) × IsSigned ca now address validity t signed
        × Carries ca t signed c)

pub new_config-Carried :
    (s : VpnConfigService) (ca : Ca) (now user_id : ℕ) (address config_name : Text) (validity : ℤ)
    (cred : ClientCredential) (id : ℕ)
    → issue_client ca now address validity ≡ ok cred
    → Carried s ca now user_id address config_name validity
        (new_config s ca now user_id config_name cred id)
new_config-Carried s ca now user_id address config_name validity cred id h =
    let (named, (signed, e, cert, key, end)) = issue_client-ok ca now address validity h in
    let t = client_template now address validity in
    let elements =
      subst (λ x. HasElements (build_profile s ca now cred) ca.certificate_pem x signed.private_key)
        cert
        (subst
          (λ x. HasElements (build_profile s ca now cred) ca.certificate_pem cred.certificate x) key
          (build_profile-HasElements s ca now cred)) in
    (
      refl,
      refl,
      named,
      (
        t,
        signed,
        (e, refl, refl, refl, Lasts-client_template now address validity),
        (cert, key, refl, ap (λ x. some x) end, elements),
      ),
    )
