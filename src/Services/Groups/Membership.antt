-- ===== src/Services/Groups/Membership.antt =====
-- Who is in a group, as members are added and removed.
use dvarpala.Base.{
  ℕ, ◌≡◌, sym, ap, ◌∙◌, not, true, false, Option, none, some, Text, find, any, keep, trim_space,
  arith, any-keep-not, any-add_once, keep-not-add_once, add_once-add_once,
}
use dvarpala.Models.{Group, UserGroup}
use dvarpala.Platform.{
  Env, World, IsReliable, ok, err, group_not_found, ◌>>=◌, select, execute, tables,
}
use dvarpala.Platform.Database.{Tables}
use dvarpala.Services.Audit.{append_log}
use dvarpala.Services.Audit.Writing.{log-ok, log-tables}
use dvarpala.Services.Users.{Account, groups_of, account_of, normalise_email, get_user_by_email}
use dvarpala.Services.Users.Standing.{get_user_by_email-eq, account_of-same}
use dvarpala.Services.Groups.{
  live_with_name, is_link, add_link, remove_link, get_group_by_name, add_user_to_group,
  remove_user_from_group, addition, removal,
}

-- The live group of a name.
abbrev pub group_of : Text → Tables → Option Group
group_of name t = find (live_with_name (trim_space name)) t.groups.rows

module _ {env : Env} (up : IsReliable env) where
  pub get_group_by_name-eq :
      (name : Text) (w : World env)
      → let (r, u) = get_group_by_name name w in
        (r ≡ elim (group_of name (tables w)) [ none ↦ err group_not_found | some g ↦ ok g ])
        × (tables u ≡ tables w)
  unfolding get_group_by_name ◌>>=◌ select
  get_group_by_name-eq name w =
      let same = env.database.view-query w.database in ground (arith, up.database_up w.database)

  add_user_to_group-tables :
      (now : ℕ) (email name : Text) (a : Account) (g : Group) (w : World env)
      → account_of (normalise_email email) (tables w) ≡ some a
      → group_of name (tables w) ≡ some g
      → let (r, w') = add_user_to_group now email name w in
        let t = tables w in
        (r ≡ ok tt)
        × (tables w'
            ≡ append_log now
                (addition a.user g)
                (record t { user_groups = add_link a.user.id g.id t.user_groups }))
  unfolding add_user_to_group ◌>>=◌ execute
  add_user_to_group-tables now email name a g w h k =
      let (r, t) = get_user_by_email-eq up email w in
      let v = (get_user_by_email email w).1 in
      let (r', t') = get_group_by_name-eq name v in
      let x = (get_group_by_name name v).1 in
      let f = λ (t : Tables). record t { user_groups = add_link a.user.id g.id t.user_groups } in
      let wrote = env.database.view-update f x.database (up.database_up x.database) in
      let u = (execute f x).1 in
      let e = addition a.user g in
      ground (arith, up.database_up x.database, log-ok now e u, log-tables up now e u)

  remove_user_from_group-tables :
      (now : ℕ) (email name : Text) (a : Account) (g : Group) (w : World env)
      → account_of (normalise_email email) (tables w) ≡ some a
      → group_of name (tables w) ≡ some g
      → let (r, w') = remove_user_from_group now email name w in
        let t = tables w in
        (r ≡ ok tt)
        × (tables w'
            ≡ append_log now
                (removal a.user g)
                (record t { user_groups = remove_link a.user.id g.id t.user_groups }))
  unfolding remove_user_from_group ◌>>=◌ execute
  remove_user_from_group-tables now email name a g w h k =
      let (r, t) = get_user_by_email-eq up email w in
      let v = (get_user_by_email email w).1 in
      let (r', t') = get_group_by_name-eq name v in
      let x = (get_group_by_name name v).1 in
      let f = λ (t : Tables). record t { user_groups = remove_link a.user.id g.id t.user_groups } in
      let wrote = env.database.view-update f x.database (up.database_up x.database) in
      let u = (execute f x).1 in
      let e = removal a.user g in
      ground (arith, up.database_up x.database, log-ok now e u, log-tables up now e u)

  -- On servers that answer, for an account and a live group: adding the user makes the user a
  -- member and changes no other membership; adding the user again changes nothing; removing the
  -- user ends just that membership.
  pub add_user_to_group-remove_user_from_group :
      (now later : ℕ) (email name : Text) (a : Account) (g : Group) (w : World env)
      → account_of (normalise_email email) (tables w) ≡ some a
      → group_of name (tables w) ≡ some g
      → let (r, added) = add_user_to_group now email name w in
        let (r', again) = add_user_to_group later email name added in
        let (r'', removed) = remove_user_from_group later email name added in
        let is_it = is_link a.user.id g.id in
        (r ≡ ok tt)
        × (any is_it (tables added).user_groups ≡ true)
        × (keep (λ l. not (is_it l)) (tables added).user_groups
            ≡ keep (λ l. not (is_it l)) (tables w).user_groups)
        × (r' ≡ ok tt)
        × ((tables again).user_groups ≡ (tables added).user_groups)
        × (r'' ≡ ok tt)
        × (any is_it (tables removed).user_groups ≡ false)
        × ((tables removed).user_groups ≡ keep (λ l. not (is_it l)) (tables w).user_groups)
  add_user_to_group-remove_user_from_group now later email name a g w h k =
      let is_it = is_link a.user.id g.id in
      let link : UserGroup = record { user_id = a.user.id; group_id = g.id } in
      let self : is_it link ≡ true = ground arith in
      let links = (tables w).user_groups in
      let added = (add_user_to_group now email name w).1 in
      let (r, t) = add_user_to_group-tables now email name a g w h k in
      let a' : Account = record { user = a.user; groups = groups_of a.user.id (tables added) } in
      let h' : account_of (normalise_email email) (tables added) ≡ some a' =
        account_of-same (normalise_email email) (tables w) (tables added) a
          (ap (λ (x : Tables). x.users.rows) t) h in
      let k' : group_of name (tables added) ≡ some g = ap (group_of name) t ∙ k in
      let (r', t') = add_user_to_group-tables later email name a' g added h' k' in
      let (r'', t'') = remove_user_from_group-tables later email name a' g added h' k' in
      let now_linked = ap (λ (x : Tables). x.user_groups) t in
      let gone =
        ap (λ (x : Tables). x.user_groups) t'' ∙ ap (remove_link a.user.id g.id) now_linked in
      (
        r,
        ap (any is_it) now_linked ∙ any-add_once is_it link links self,
        ap (keep (λ l. not (is_it l))) now_linked ∙ keep-not-add_once is_it link links self,
        r',
        ap (λ (x : Tables). x.user_groups) t'
            ∙ ap (add_link a.user.id g.id) now_linked
            ∙ add_once-add_once is_it link links self
            ∙ sym now_linked,
        r'',
        ap (any is_it) gone ∙ any-keep-not is_it (add_link a.user.id g.id links),
        gone ∙ keep-not-add_once is_it link links self,
      )
