-- ===== src/Services/Users/Standing.antt =====
-- Who may sign in, before and after an account is closed and reopened.
use dvarpala.Base.{
  ℕ, ◌≡◌, refl, ap, ◌∙◌, false, Option, none, some, Text, ◌&&◌, not, find, find-map, find_sound,
  text_eq→eq, arith, ◌==◌, if◌then◌else◌,
}
use dvarpala.Models.{User, UserStatus}
use dvarpala.Platform.{
  Env, World, IsReliable, ok, err, user_not_found, user_inactive, ◌>>=◌, select, execute, tables,
  keys,
}
use dvarpala.Platform.Rules.{bind-ok, select-ok}
use dvarpala.Platform.Database.{Tables}
use dvarpala.Services.Audit.{append_log}
use dvarpala.Services.Audit.Writing.{log-ok, log-tables}
use dvarpala.Services.Users.{
  Account, account_of, account_in, groups_of, live_with_email, normalise_email, is_active,
  with_status, update_user, found_account, deactivation, activation, killed, get_user_by_email,
  is_authorised, deactivate_user, activate_user,
}

-- The account that may sign in with an address.
abbrev pub Authorised : Text → Tables → Account → Type 0
Authorised email t a =
    (account_of (normalise_email email) t ≡ some a) × (a.user.status ≡ UserStatus.active)

module _ {env : Env} where
  pub get_user_by_email-ok :
      (email : Text) {a : Account} {w u : World env}
      → get_user_by_email email w ≡ (ok a, u)
      → (account_of (normalise_email email) (tables w) ≡ some a)
        × (tables u ≡ tables w)
        × (keys u ≡ keys w)
  unfolding get_user_by_email
  get_user_by_email-ok email {a} {w} {u} h =
      let (found, v, read, rest) =
        bind-ok (select (account_of (normalise_email email))) found_account h in
      let (same, t, k) = select-ok (account_of (normalise_email email)) read in
      (ground arith, ground arith, ground arith)

  pub is_authorised-ok :
      (email : Text) {a : Account} {w u : World env}
      → is_authorised email w ≡ (ok a, u)
      → Authorised email (tables w) a × (tables u ≡ tables w) × (keys u ≡ keys w)
  unfolding is_authorised
  is_authorised-ok email {a} {w} {u} h =
      let (b, v, got, rest) = bind-ok (get_user_by_email email) _ h in
      let (there, t, k) = get_user_by_email-ok email got in
      ((ground arith, ground arith), ground arith, ground arith)

user_of_account :
    (t : Tables) (o : Option User) (a : Account) → account_in t o ≡ some a → o ≡ some a.user
user_of_account t none a k = cc
user_of_account t (some u) a k = ground arith

-- An account that is found by an address has it.
pub account_of-email :
    (e : Text) (t : Tables) (a : Account) → account_of e t ≡ some a → a.user.email ≡ e
account_of-email e t a h =
    let rows = t.users.rows in
    let live =
      find_sound (live_with_email e) rows (user_of_account t (find (live_with_email e) rows) a h) in
    text_eq→eq a.user.email e (ground arith)

-- An update that keeps identifier, address and deletion is seen by the lookup of the updated row.
pub account_of-update_by :
    (f : User → User)
    → ((u : User) → ((f u).id ≡ u.id) × ((f u).email ≡ u.email) × ((f u).deleted ≡ u.deleted))
    → (e : Text) (id : ℕ) (t : Tables) (a : Account) → account_of e t ≡ some a
    → a.user.id ≡ id
    → account_of e (update_user id f t) ≡ some (record a { user = f a.user })
account_of-update_by f keeps e id t a h same =
    let rows = t.users.rows in
    let g = λ (u : User). if u.id == id && not u.deleted then f u else u in
    let found : find (live_with_email e) rows ≡ some a.user =
      user_of_account t (find (live_with_email e) rows) a h in
    let live = find_sound (live_with_email e) rows found in
    let moved = find-map (live_with_email e) g (λ u. ground (arith, keeps u)) rows in
    let hit : g a.user ≡ f a.user = ground arith in ground (arith, keeps a.user)

pub account_of-update :
    (e : Text) (id : ℕ) (s : UserStatus) (t : Tables) (a : Account)
    → account_of e t ≡ some a
    → a.user.id ≡ id
    → account_of e (update_user id (with_status s) t)
      ≡ some (record a { user = with_status s a.user })
account_of-update e id s = account_of-update_by (with_status s) (λ u. (refl, refl, refl)) e id

-- Two states of the tables with the same users have the same accounts, up to their groups.
pub account_of-same :
    (e : Text) (t t' : Tables) (a : Account)
    → t'.users.rows ≡ t.users.rows
    → account_of e t ≡ some a
    → account_of e t' ≡ some (record { user = a.user; groups = groups_of a.user.id t' })
account_of-same e t t' a same h =
    ap (λ rows. account_in t' (find (live_with_email e) rows)) same
    ∙ go (find (live_with_email e) t.users.rows) h
  where
    go :
        (o : Option User)
        → account_in t o ≡ some a
        → account_in t' o ≡ some (record { user = a.user; groups = groups_of a.user.id t' })
    go none k = cc
    go (some u) k =
        ap (λ (x : User). some (record { user = x; groups = groups_of x.id t' })) (user_eq u k)
      where
        user_eq : (u : User) → account_in t (some u) ≡ some a → u ≡ a.user
        user_eq u k = cc

module _ {env : Env} (up : IsReliable env) where
  pub get_user_by_email-eq :
      (email : Text) (w : World env)
      → let (r, u) = get_user_by_email email w in
        (r ≡ elim (account_of (normalise_email email) (tables w)) [
          | none ↦ err user_not_found
          | some a ↦ ok a
        ])
        × (tables u ≡ tables w)
  unfolding get_user_by_email ◌>>=◌ select
  get_user_by_email-eq email w =
      let same = env.database.view-query w.database in ground (arith, up.database_up w.database)

  pub deactivate_user-tables :
      (now : ℕ) (email : Text) (a : Account) (w : World env)
      → account_of (normalise_email email) (tables w) ≡ some a
      → let (r, w') = deactivate_user now email w in
        let e = deactivation (killed env.disconnect a.user.email) a.user in
        (r ≡ ok tt)
        × (tables w'
            ≡ append_log now e (update_user a.user.id (with_status UserStatus.inactive) (tables w)))
  unfolding deactivate_user ◌>>=◌ execute
  deactivate_user-tables now email a w h =
      let f = update_user a.user.id (with_status UserStatus.inactive) in
      let e = deactivation (killed env.disconnect a.user.email) a.user in
      let v = (get_user_by_email email w).1 in
      let (r, same) = get_user_by_email-eq email w in
      let u = (execute f v).1 in
      let wrote = env.database.view-update f v.database (up.database_up v.database) in
      ground (arith, up.database_up v.database, log-ok now e u, log-tables up now e u)

  activate_user-tables :
      (now : ℕ) (email : Text) (a : Account) (w : World env)
      → account_of (normalise_email email) (tables w) ≡ some a
      → is_active a.user.status ≡ false
      → let (r, w') = activate_user now email w in
        (r ≡ ok tt)
        × (tables w'
            ≡ append_log now
                (activation a.user)
                (update_user a.user.id (with_status UserStatus.active) (tables w)))
  unfolding activate_user ◌>>=◌ execute
  activate_user-tables now email a w h closed =
      let f = update_user a.user.id (with_status UserStatus.active) in
      let e = activation a.user in
      let v = (get_user_by_email email w).1 in
      let (r, same) = get_user_by_email-eq email w in
      let u = (execute f v).1 in
      let wrote = env.database.view-update f v.database (up.database_up v.database) in
      ground (arith, up.database_up v.database, log-ok now e u, log-tables up now e u)

  pub is_authorised-eq :
      (email : Text) (a : Account) (w : World env)
      → account_of (normalise_email email) (tables w) ≡ some a
      → (is_authorised email w).0 ≡ (if is_active a.user.status then ok a else err user_inactive)
  unfolding is_authorised ◌>>=◌
  is_authorised-eq email a w h = let (r, same) = get_user_by_email-eq email w in ground arith

  -- On servers that answer: deactivation shuts an account out however its address is written, and
  -- reopening it lets it in with the user and the groups that it had, and the status active.
  pub deactivate-activate :
      (now later : ℕ) (email other : Text) (a : Account) (w : World env)
      → account_of (normalise_email email) (tables w) ≡ some a
      → normalise_email other ≡ normalise_email email
      → let (r, w') = deactivate_user now email w in
        let (r', w'') = activate_user later other w' in
        (r ≡ ok tt)
        × ((is_authorised other w').0 ≡ err user_inactive)
        × (r' ≡ ok tt)
        × ((is_authorised other w'').0
            ≡ ok (record a { user = with_status UserStatus.active a.user }))
  deactivate-activate now later email other a w h same =
      let w' = (deactivate_user now email w).1 in
      let w'' = (activate_user later other w').1 in
      let closed = record a { user = with_status UserStatus.inactive a.user } in
      let opened = record a { user = with_status UserStatus.active a.user } in
      let e = normalise_email email in
      let (r, t) = deactivate_user-tables now email a w h in
      let shut : account_of (normalise_email other) (tables w') ≡ some closed =
        ap (λ x. account_of x (tables w')) same
        ∙ ap (account_of e) t
        ∙ account_of-update e a.user.id UserStatus.inactive (tables w) a h refl in
      let (r', t') = activate_user-tables later other closed w' shut refl in
      let back : account_of (normalise_email other) (tables w'') ≡ some opened =
        ap (account_of (normalise_email other)) t'
        ∙ account_of-update (normalise_email other) a.user.id UserStatus.active (tables w') closed
            shut refl in
      (r, is_authorised-eq other closed w' shut, r', is_authorised-eq other opened w'' back)
