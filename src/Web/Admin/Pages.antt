-- ===== src/Web/Admin/Pages.antt =====
-- The pages of internal/web/admin.go.
pub mod Recent
use dvarpala.Base.{
  ℕ, ◌-◌, ◌&&◌, ◌||◌, Bool, true, false, String, Text, codes, List, [], ◌∷◌, ◌++◌, Option, none,
  some, map, keep, take, is_empty, trim_space, ltb, leb, ◌==◌, if◌then◌else◌, sort_by,
}
use dvarpala.Models.{Session, User, AuditLog}
use dvarpala.Platform.{Env, Exec, Result, ok, err, Error, pure, ◌>>=◌, ◌>>◌, catch}
use dvarpala.Services.Audit
use dvarpala.Services.Audit.{AuditRecord}
use dvarpala.Services.Users.{Account, list_users, get_user_by_email, is_authorised, status_text}
use dvarpala.Services.Groups.{Roster, list_groups}
use dvarpala.Services.Resources.{list_resources}
use dvarpala.Services.Permissions.{AccessGrant, resources_for_user}
use dvarpala.Services.Domains
use dvarpala.Services.Domains.{text_leb}
use dvarpala.Auth.Session.Active.{ActiveSession, Scanned, active}
use dvarpala.Web.{Request}
use dvarpala.Web.Admin.{
  AdminSite, LiveRow, SignInRow, AuditRow, KindRow, AdminView, blank_view, AdminReply,
  human_duration, truncate, render,
}
use dvarpala.Web.Admin.Actions.{attempt}

-- A list that could not be read is empty.
abbrev pub or_empty : {A : Type 0} → Result (List A) → List A
or_empty (ok xs) = xs
or_empty (err e) = []

abbrev pub first_error : {A B : Type 0} → Result A → Result B → Result (Unit {0})
first_error (err e) r = err e
first_error (ok a) (ok b) = ok tt
first_error (ok a) (err e) = err e

-- strings.Join with ", "
unfoldable pub joined : List Text → Text
joined [] = []
joined (s ∷ []) = s
joined (s ∷ t ∷ r) = s ++ codes ", " ++ joined (t ∷ r)

-- The people who have signed in, the latest first, at most 25.
abbrev pub last_of : User → ℕ
last_of u = elim u.last_login [ none ↦ 0 | some t ↦ t ]

abbrev pub has_signed_in : Account → Bool
has_signed_in a = elim a.user.last_login [ none ↦ false | some t ↦ true ]

abbrev pub later_login : Account → Account → Bool
later_login a b = leb (last_of b.user) (last_of a.user)

unfoldable pub recent : List Account → List Account
recent users = take 25 (sort_by later_login (keep has_signed_in users))

-- The kinds of event, the most frequent first, and among those of one count by name.
abbrev pub more_frequent : KindRow → KindRow → Bool
more_frequent a b =
    ltb b.count a.count || (a.count == b.count && text_leb (codes a.action) (codes b.action))

abbrev pub kind_rows : Result (List (String × ℕ)) → List KindRow
kind_rows (err e) = []
kind_rows (ok counts) =
    sort_by more_frequent (map (λ (a, n). record { action = a; count = n }) counts)

module _ {env : Env} (admin : AdminSite env) (now : ℕ) (sess : Session)
    (asked_ok asked_err : Text) where
  abbrev show : {A : Type 0} → AdminView → Result A → AdminReply
  show v r = render admin sess asked_ok asked_err v r

  unfoldable pub users : Exec env AdminReply
  users = do
    list ← attempt list_users
    groups ← attempt list_groups
    pure (
        show
          (record (blank_view (codes "users")) { users = or_empty list; groups = or_empty groups })
          list)

  -- Whether the account may sign in, by the check that the VPN makes.
  abbrev pub verdict : Result Account → AdminView → AdminView
  verdict (ok a) v = record v { allowed = true }
  verdict (err e) v = record v { deny_msg = admin.site.error_text e }

  abbrev pub detail_of : Text → Result Account → Exec env AdminReply
  detail_of email (err e) = pure (show {A = Account} (blank_view (codes "user")) (err e))
  detail_of email (ok a) = do
    groups ← attempt list_groups
    allowed ← attempt (is_authorised email)
    grants ← attempt (resources_for_user email)
    pure (
        show
          (record (verdict allowed (blank_view (codes "user"))) {
            user = some a;
            groups = or_empty groups;
            grants = or_empty grants;
          })
          grants)

  unfoldable pub user_detail : Text → Exec env AdminReply
  user_detail email = do a ← attempt (get_user_by_email email); detail_of email a

  unfoldable pub groups : Exec env AdminReply
  groups = do
    list ← attempt list_groups
    resources ← attempt list_resources
    pure (
        show
          (record (blank_view (codes "groups")) {
            groups = or_empty list;
            resources = or_empty resources;
          })
          list)

  unfoldable pub resources : Exec env AdminReply
  resources = do
    list ← attempt list_resources
    pure (show (record (blank_view (codes "resources")) { resources = or_empty list }) list)

  unfoldable pub domains : Exec env AdminReply
  domains = do
    list ← attempt Domains.list
    pure (show (record (blank_view (codes "domains")) { domains = or_empty list }) list)

  abbrev pub live_row : ActiveSession → LiveRow
  live_row a = record {
    email = a.session.email;
    provider = a.session.provider;
    client_ip = a.session.client_ip;
    groups = joined a.session.groups;
    since = admin.format_minute a.session.issued_at;
    remaining = human_duration a.remaining;
    on_tunnel = a.on_tunnel;
  }

  abbrev pub sign_in_row : Account → SignInRow
  sign_in_row a = record {
    email = a.user.email;
    status = status_text a.user.status;
    when = admin.format_minute (last_of a.user);
    ago = human_duration (now - last_of a.user) ++ codes " ago";
  }

  unfoldable pub activity : Scanned → Scanned → Exec env AdminReply
  activity auth_keys session_keys = do
    live ← attempt (active now auth_keys session_keys)
    users ← attempt list_users
    pure (
        show
          (record (blank_view (codes "activity")) {
            live = map live_row (or_empty live);
            sign_ins = map sign_in_row (recent (or_empty users));
          })
          (first_error live users))

  abbrev pub audit_row : AuditRecord → AuditRow
  audit_row a = record {
    id = a.row.id;
    when = admin.site.format_time a.row.created_at;
    email = a.email;
    action = a.row.action;
    ip = a.row.ip_address;
    details = truncate (admin.details_json a.row.details) 90;
  }

  unfoldable pub audit : Text → Text → Exec env AdminReply
  audit email action =
      let e = trim_space email in
      let k = trim_space action in
      do
        records ←
            attempt (Audit.list now (record { email = e; action = k; since = 0; limit = 200 }))
        counts ← attempt Audit.actions
        pure (
            show
              (record (blank_view (codes "audit")) {
                trail = map audit_row (or_empty records);
                kinds = kind_rows counts;
                filter_email = e;
                filter_kind = k;
              })
              records)
