-- ===== src/Vpn/Access/Routes.antt =====
-- Which routes are pushed for a list of grants.
use dvarpala.Base.{
  ◌≡◌, refl, sym, subst, ◌⊎◌, inl, inr, ◌||◌, true, false, List, [], ◌∷◌, Option, none, some, Text,
  any, text_eq, text_eq_refl, arith, All, All-map, Bool-cases, Option-cases,
}
use dvarpala.Services.Permissions.{AccessGrant}
use dvarpala.Vpn.Access.{Route, route_key, route_of, routed_to, routes_from, to_routes}

abbrev pub key_of : Route → Text
key_of r = route_key (r.network, r.netmask)

-- No two of the routes are to one network, and none is to a network seen before.
abbrev pub Distinct : List Text → List Route → Type 0
Distinct seen [] = Unit {0}
Distinct seen (r ∷ rs) = (any (text_eq (key_of r)) seen ≡ false) × Distinct (key_of r ∷ seen) rs

-- A route that a grant among these opens.
abbrev pub FromGrant : (Text → Option (Text × Text)) → List AccessGrant → Route → Type 0
FromGrant v6 [] r = ⊥
FromGrant v6 (g ∷ gs) r =
    ((net : Text × Text) × (routed_to v6 g ≡ some net) × (r ≡ route_of g net)) ⊎ FromGrant v6 gs r

-- What a grant opens is among the routes, or was seen.
abbrev pub Covered : (Text → Option (Text × Text)) → List Text → List Route → AccessGrant → Type 0
Covered v6 seen rs g =
    (net : Text × Text)
    → routed_to v6 g ≡ some net
    → (any (λ r. text_eq (route_key net) (key_of r)) rs || any (text_eq (route_key net)) seen)
      ≡ true

module _ (v6 : Text → Option (Text × Text)) (seen : List Text) (g : AccessGrant)
    (gs : List AccessGrant) where
  -- One round of the loop.
  routes_from-cons_none :
      routed_to v6 g ≡ none → routes_from v6 seen (g ∷ gs) ≡ routes_from v6 seen gs
  unfolding routes_from
  routes_from-cons_none e = rw (e, routes_from) refl

  routes_from-cons_old :
      (n m : Text)
      → routed_to v6 g ≡ some (n, m)
      → any (text_eq (route_key (n, m))) seen ≡ true
      → routes_from v6 seen (g ∷ gs) ≡ routes_from v6 seen gs
  unfolding routes_from
  routes_from-cons_old n m e old = rw (e, routes_from) (rw old refl)

  routes_from-cons_new :
      (n m : Text)
      → routed_to v6 g ≡ some (n, m)
      → any (text_eq (route_key (n, m))) seen ≡ false
      → routes_from v6 seen (g ∷ gs)
        ≡ route_of g (n, m) ∷ routes_from v6 (route_key (n, m) ∷ seen) gs
  unfolding routes_from
  routes_from-cons_new n m e new = rw (e, routes_from) (rw new refl)

module _ (v6 : Text → Option (Text × Text)) where
  routes_from-Distinct :
      (seen : List Text) (gs : List AccessGrant) → Distinct seen (routes_from v6 seen gs)
  unfolding routes_from
  routes_from-Distinct seen [] = tt
  routes_from-Distinct seen (g ∷ gs) = elim (Option-cases (routed_to v6 g)) [
    | inl e ↦ rw (e, routes_from) (routes_from-Distinct seen gs)
    | inr ((n, m), e) ↦ elim (Bool-cases (any (text_eq (route_key (n, m))) seen)) [
      | inl old ↦ rw (e, routes_from) (rw old (routes_from-Distinct seen gs))
      | inr new ↦
          rw (e, routes_from) (rw new (new, routes_from-Distinct (route_key (n, m) ∷ seen) gs))
    ]
  ]

  routes_from_sound :
      (seen : List Text) (gs : List AccessGrant) → All (FromGrant v6 gs) (routes_from v6 seen gs)
  unfolding routes_from
  routes_from_sound seen [] = tt
  routes_from_sound seen (g ∷ gs) = elim (Option-cases (routed_to v6 g)) [
    | inl e ↦ rw (e, routes_from) (All-map (λ r h. inr h) _ (routes_from_sound seen gs))
    | inr ((n, m), e) ↦ elim (Bool-cases (any (text_eq (route_key (n, m))) seen)) [
      | inl old ↦
          rw (e, routes_from) (rw old (All-map (λ r h. inr h) _ (routes_from_sound seen gs)))
      | inr new ↦
          rw (e, routes_from)
            (rw new (
              inl ((n, m), e, refl),
              All-map (λ r h. inr h) _ (routes_from_sound (route_key (n, m) ∷ seen) gs),
            ))
    ]
  ]

  -- What is covered once a key is seen is covered by a route to that key.
  Covered-by_route :
      (seen : List Text) (r : Route) (rs : List Route) (g : AccessGrant)
      → Covered v6 (key_of r ∷ seen) rs g
      → Covered v6 seen (r ∷ rs) g
  unfolding any
  Covered-by_route seen r rs g h net e = ground (arith, h net e)

  Covered-at_head :
      (seen : List Text) (rs : List Route) (g : AccessGrant) (n m : Text)
      → routed_to v6 g ≡ some (n, m)
      → (any (λ r. text_eq (route_key (n, m)) (key_of r)) rs
          || any (text_eq (route_key (n, m))) seen)
        ≡ true
      → Covered v6 seen rs g
  Covered-at_head seen rs g n m e h (n', m') e' =
      subst
        (λ (x : Text × Text).
          (any (λ r. text_eq (route_key x) (key_of r)) rs || any (text_eq (route_key x)) seen)
          ≡ true)
        (cc) h

  routes_from_complete :
      (seen : List Text) (gs : List AccessGrant) → All (Covered v6 seen (routes_from v6 seen gs)) gs
  routes_from_complete seen [] = tt
  routes_from_complete seen (g ∷ gs) = elim (Option-cases (routed_to v6 g)) [
    | inl e ↦
        subst Goal (sym (routes_from-cons_none v6 seen g gs e))
          ((λ net e'. cc), routes_from_complete seen gs)
    | inr ((n, m), e) ↦ elim (Bool-cases (any (text_eq (route_key (n, m))) seen)) [
      | inl old ↦ subst Goal (sym (routes_from-cons_old v6 seen g gs n m e old)) (
        Covered-at_head seen (routes_from v6 seen gs) g n m e (ground arith),
        routes_from_complete seen gs,
      )
      | inr new ↦
          let rest = routes_from v6 (route_key (n, m) ∷ seen) gs in
          subst Goal (sym (routes_from-cons_new v6 seen g gs n m e new)) (
            Covered-at_head seen (route_of g (n, m) ∷ rest) g n m e
                (unfold any in ground (arith, text_eq_refl (route_key (n, m)))),
            All-map (λ h. Covered-by_route seen (route_of g (n, m)) rest h) gs
                (routes_from_complete (route_key (n, m) ∷ seen) gs),
          )
    ]
  ]
    where
      Goal : List Route → Type 0
      Goal rs = All (Covered v6 seen rs) (g ∷ gs)

  -- toRoutes pushes no network twice, opens nothing that no grant opens, and covers the network of
  -- each grant with a routable address.
  pub to_routes_lem :
      (gs : List AccessGrant)
      → Distinct [] (to_routes v6 gs)
        × All (FromGrant v6 gs) (to_routes v6 gs)
        × All (Covered v6 [] (to_routes v6 gs)) gs
  unfolding to_routes
  to_routes_lem gs =
      (routes_from-Distinct [] gs, routes_from_sound [] gs, routes_from_complete [] gs)
