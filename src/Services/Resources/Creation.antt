-- ===== src/Services/Resources/Creation.antt =====
-- Which resources can be registered.
use dvarpala.Base.{
  ℕ, ◌≡◌, refl, sym, ap, ◌∙◌, subst, ◌⊎◌, inl, inr, ◌&&◌, not, true, false, Option, none, some,
  Text, [], find, is_empty, trim_space, to_lower, arith, Bool-cases, Option-cases,
}
use dvarpala.Models.{Resource, ResourceType}
use dvarpala.Platform.{Env, World, IsReliable, ok, pure, ◌>>=◌, select, insert, tables}
use dvarpala.Platform.Rules.{bind-ok, if-ok, select-ok, insert-ok}
use dvarpala.Platform.Database.{Tables, add_row}
use dvarpala.Net.{split_cidr}
use dvarpala.Services.Audit.{log}
use dvarpala.Services.Audit.Writing.{log-ok}
use dvarpala.Services.Resources.{
  CreateResourceRequest, resource_type, needs_address, is_some, live_with_name, new_resource,
  creation, insert_resource, store_resource, name_resource, address_resource, create_resource,
}

abbrev pub NameIsFree : Text → Tables → Type 0
NameIsFree name t = find (live_with_name name) t.resources.rows ≡ none

-- The address of a resource is empty, or it can be turned into a route.
abbrev pub Routable : (Text → Option (Text × Text)) → Text → Type 0
Routable v6 ip = (is_empty ip ≡ true) ⊎ ((net : Text × Text) × (split_cidr v6 ip ≡ some net))

Routable-of_checks :
    (v6 : Text → Option (Text × Text)) (ip : Text)
    → (not (is_empty ip) && not (is_some (split_cidr v6 ip))) ≡ false
    → Routable v6 ip
Routable-of_checks v6 ip h = elim (Bool-cases (is_empty ip)) [
  | inl e ↦ inl e
  | inr e ↦ elim (Option-cases (split_cidr v6 ip)) [
    | inl k ↦ absurd (ground arith)
    | inr (net, k) ↦ inr (net, k)
  ]
]

module _ {env : Env} where
  stored-ok :
      (now : ℕ) (name ip : Text) (kind : ResourceType) (req : CreateResourceRequest)
      (o : Option Resource) (r : Resource) (w u : World env)
      → store_resource now name kind ip req o w ≡ (ok r, u)
      → (o ≡ none) × (r ≡ new_resource name kind ip req (tables w).resources.next_id)
  unfolding insert_resource
  stored-ok now name ip kind req (some x) r w u h = cc
  stored-ok now name ip kind req none r w u h =
      let q = λ (t : Tables). new_resource name kind ip req t.resources.next_id in
      let f = λ (t : Tables). record t {
        resources = add_row (new_resource name kind ip req) t.resources;
      } in
      let (x, v, made, rest) = bind-ok (insert q f) _ h in
      let (same, t, k) = insert-ok q f made in
      let (y, v', noted, last) = bind-ok (log now (creation x)) _ rest in
      (refl, pure_eq x r v' u last ∙ same)
    where
      pure_eq : (x r : Resource) (v u : World env) → pure {env = env} x v ≡ (ok r, u) → r ≡ x
      pure_eq x r v u e = cc

  named-ok :
      (now : ℕ) (kind : ResourceType) (req : CreateResourceRequest) (r : Resource) (w u : World env)
      → name_resource now kind req w ≡ (ok r, u)
      → NameIsFree (trim_space req.name) (tables w)
        × (r
            ≡ new_resource
                (trim_space req.name)
                kind
                (trim_space req.ip_address)
                req
                (tables w).resources.next_id)
  unfolding name_resource
  named-ok now kind req r w u h =
      let name = trim_space req.name in
      let q = λ (t : Tables). find (live_with_name name) t.resources.rows in
      let (o, v, looked, rest) = bind-ok (select q) _ h in
      let (same, t, k) = select-ok q looked in
      let (free, made) = stored-ok now name (trim_space req.ip_address) kind req o r v u rest in
      (
        sym same ∙ free,
        made
            ∙ ap
                (λ (x : Tables).
                  new_resource name kind (trim_space req.ip_address) req x.resources.next_id)
                t,
      )

  -- Whatever the servers do: a resource that is registered has a name that is not empty and that
  -- no other live resource had; a kind that is known; and an address that is empty or can be
  -- routed, which for a machine or a database was not left out.
  pub create_resource_sound :
      (now : ℕ) (req : CreateResourceRequest) (r : Resource) (w u : World env)
      → create_resource now req w ≡ (ok r, u)
      → (is_empty r.name ≡ false)
        × NameIsFree r.name (tables w)
        × (resource_type (to_lower (trim_space req.kind)) ≡ some r.kind)
        × Routable env.split_ipv6 r.ip_address
        × ((needs_address r.kind && is_empty req.ip_address) ≡ false)
  unfolding create_resource address_resource
  create_resource_sound now req r w u h = elim (if-ok (is_empty (trim_space req.name)) _ _ h) [
    | inl (e, k) ↦ cc
    | inr (e, k) ↦ go e (resource_type (to_lower (trim_space req.kind))) refl k
  ]
    where
      go :
          is_empty (trim_space req.name) ≡ false
          → (o : Option ResourceType) → resource_type (to_lower (trim_space req.kind)) ≡ o
          → address_resource now req o w ≡ (ok r, u)
          → (is_empty r.name ≡ false)
            × NameIsFree r.name (tables w)
            × (resource_type (to_lower (trim_space req.kind)) ≡ some r.kind)
            × Routable env.split_ipv6 r.ip_address
            × ((needs_address r.kind && is_empty req.ip_address) ≡ false)
      go e none known k = cc
      go e (some kind) known k =
          let ip = trim_space req.ip_address in
          elim (if-ok (needs_address kind && is_empty req.ip_address) _ _ k) [
            | inl (_, k') ↦ cc
            | inr (given, k') ↦
                elim (if-ok (not (is_empty ip) && not (is_some (split_cidr env.split_ipv6 ip))) _ _
                  k') [
                    | inl (_, k'') ↦ cc
                    | inr (routes, k'') ↦
                        let (free, made) = named-ok now kind req r w u k'' in
                        subst
                          (λ (x : Resource).
                            (is_empty x.name ≡ false)
                            × NameIsFree x.name (tables w)
                            × (resource_type (to_lower (trim_space req.kind)) ≡ some x.kind)
                            × Routable env.split_ipv6 x.ip_address
                            × ((needs_address x.kind && is_empty req.ip_address) ≡ false))
                          (sym made)
                          (e, free, known, Routable-of_checks env.split_ipv6 ip routes, given)
                  ]
          ]

module _ {env : Env} (up : IsReliable env) where
  name_resource-eq :
      (now : ℕ) (kind : ResourceType) (req : CreateResourceRequest) (w : World env)
      → NameIsFree (trim_space req.name) (tables w)
      → (name_resource now kind req w).0
        ≡ ok (
            new_resource
              (trim_space req.name)
              kind
              (trim_space req.ip_address)
              req
              (tables w).resources.next_id)
  unfolding name_resource insert_resource select insert ◌>>=◌
  name_resource-eq now kind req w free =
      let q = λ (t : Tables). find (live_with_name (trim_space req.name)) t.resources.rows in
      let v = (select q w).1 in
      let made =
        new_resource (trim_space req.name) kind (trim_space req.ip_address) req
          (tables w).resources.next_id in
      let f = λ (t : Tables). record t {
        resources =
            add_row (new_resource (trim_space req.name) kind (trim_space req.ip_address) req)
              t.resources;
      } in
      let u =
        (insert
          (λ (t : Tables).
            new_resource (trim_space req.name) kind (trim_space req.ip_address) req
              t.resources.next_id)
          f v).1 in
      ground (
        arith,
        env.database.view-query w.database,
        up.database_up w.database,
        up.database_up v.database,
        log-ok now (creation made) u,
      )

  -- A machine or a database whose address is nothing but blanks is registered, on servers that
  -- answer and under a free name, with an empty address.
  pub create_resource_blank :
      (now : ℕ) (kind : ResourceType) (req : CreateResourceRequest) (w : World env)
      → is_empty (trim_space req.name) ≡ false
      → resource_type (to_lower (trim_space req.kind)) ≡ some kind
      → needs_address kind ≡ true
      → is_empty req.ip_address ≡ false
      → trim_space req.ip_address ≡ []
      → NameIsFree (trim_space req.name) (tables w)
      → (create_resource now req w).0
        ≡ ok (new_resource (trim_space req.name) kind [] req (tables w).resources.next_id)
  unfolding create_resource address_resource
  create_resource_blank now kind req w named known needs given blank free =
      rw (named, create_resource)
        (rw (known, address_resource)
          (rw (needs, given, blank)
            (name_resource-eq now kind req w free
              ∙ ap
                  (λ ip.
                    ok
                      (new_resource (trim_space req.name) kind ip req (tables w).resources.next_id))
                  blank)))
