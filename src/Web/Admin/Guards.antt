-- ===== src/Web/Admin/Guards.antt =====
-- What stands in front of the console's forms: requireAdmin and requireCSRF.
use dvarpala.Base.{
  ℕ, ◌≡◌, refl, sym, ap, ◌∙◌, subst, ◌⊎◌, inl, inr, Bool, true, false, Option, none, some, Text,
  is_empty, text_eq, any, codes, ◌++◌, if◌then◌else◌, Bool-cases, arith,
}
use dvarpala.Models.{Session}
use dvarpala.Platform.{Env, World, Result, ok, ◌>>=◌, catch, pure, redis_get, tables, keys}
use dvarpala.Platform.Rules.{run-cases, bind-after_ok, bind-after_err}
use dvarpala.Platform.Invariants.{catch-keeps}
use dvarpala.Auth.Session.{fetch, get_session, get_by_client_ip}
use dvarpala.Web.{Request, session_for, by_client_ip, is_admin}
use dvarpala.Web.Admin.{AdminSite, AdminReply, csrf_token, admitted, require_admin, require_csrf}
use dvarpala.Web.Admin.Actions.{Form, perform, post}

module _ {env : Env} where
  -- What both servers hold is as before.
  abbrev pub Untouched : World env → World env → Type 0
  Untouched w u = (tables u ≡ tables w) × (keys u ≡ keys w)

  fetch-Untouched : (now : ℕ) (key : Text) (w : World env) → Untouched w (fetch now key w).1
  unfolding fetch ◌>>=◌ redis_get
  fetch-Untouched now key w = (ground arith, ground (arith, env.redis.view-query w.redis))

  Untouched-step : (w u v : World env) → Untouched w u → Untouched u v → Untouched w v
  Untouched-step w u v (t, k) (t', k') = (t' ∙ t, k' ∙ k)

  fetched-Untouched :
      (now : ℕ) (key : Text) {r : Result Session} (w v : World env)
      → fetch now key w ≡ (r, v)
      → Untouched w v
  fetched-Untouched now key w v e =
      subst (λ (x : Result Session × World env). Untouched w x.1) e (fetch-Untouched now key w)

  by_client_ip-Untouched :
      (now : ℕ) (ip : Text) (w : World env) → Untouched w (by_client_ip now ip w).1
  by_client_ip-Untouched now ip w =
      catch-keeps (Untouched w) (get_by_client_ip now ip) (λ s. pure (some s)) (λ e. pure none)
        (λ s v e. fetched-Untouched now _ w v e) (λ x v e. fetched-Untouched now _ w v e)

  -- Looking for the session of a request changes nothing.
  pub session_for-Untouched :
      (now : ℕ) (r : Request) (w : World env) → Untouched w (session_for now r w).1
  unfolding session_for
  session_for-Untouched now r w = go r.cookie
    where
      from_cookie :
          (tok : Text) (b : Bool)
          → Untouched w
              ((if b
                  then by_client_ip now r.client_ip
                  else catch
                      (get_session now tok)
                      (λ s. pure (some s))
                      (λ e. by_client_ip now r.client_ip))
                w).1
      from_cookie tok true = by_client_ip-Untouched now r.client_ip w
      from_cookie tok false =
          catch-keeps (Untouched w) (get_session now tok) _ _
            (λ s v e. fetched-Untouched now _ w v e)
            (λ x v e.
              Untouched-step w v _ (fetched-Untouched now _ w v e)
                (by_client_ip-Untouched now r.client_ip v))

      go :
          (cookie : Option Text)
          → Untouched w (session_for now (record { cookie = cookie; client_ip = r.client_ip }) w).1
      go none = by_client_ip-Untouched now r.client_ip w
      go (some tok) = from_cookie tok (is_empty tok)

-- A form that is posted is carried out for this session.
abbrev pub Carried :
    {env : Env} → AdminSite env → ℕ → Request → Text → Form → World env → Session → Type 0
Carried admin now r csrf form w sess =
    ((session_for now r w).0 ≡ ok (some sess))
    × (any (text_eq (codes "system_admins")) sess.groups ≡ true)
    × (text_eq (admin.csrf_hash (codes "dvarpala-csrf|" ++ sess.token)) csrf ≡ true)
    × (post admin now r csrf form w ≡ perform admin now form sess (session_for now r w).1)

module _ {env : Env} (admin : AdminSite env) (now : ℕ) (r : Request) (csrf : Text)
    (form : Form) where
  -- Behind the look for a session.
  abbrev Guarded : Option Session → World env → Result AdminReply × World env
  Guarded o v = admitted admin now r (require_csrf admin now r csrf (perform admin now form)) o v

  guarded-Carried :
      (sess : Session) (w v : World env)
      → Untouched w v
      → ((is_admin sess ≡ true)
          × (text_eq (csrf_token admin.csrf_hash sess.token) csrf ≡ true)
          × (Guarded (some sess) v ≡ perform admin now form sess v))
        ⊎ Untouched w (Guarded (some sess) v).1
  unfolding require_csrf
  guarded-Carried sess w v same = elim (Bool-cases (is_admin sess)) [
    | inr e ↦ inr (rw e same)
    | inl e ↦ elim (Bool-cases (text_eq (csrf_token admin.csrf_hash sess.token) csrf)) [
      | inr d ↦ inr (rw (e, d) same)
      | inl d ↦ inl (e, d, rw (e, d) refl)
    ]
  ]

  answered :
      (w v : World env) (o : Option Session)
      → session_for now r w ≡ (ok o, v)
      → Untouched w v
      → ((sess : Session) × Carried admin now r csrf form w sess)
        ⊎ Untouched w (post admin now r csrf form w).1
  unfolding post require_admin is_admin csrf_token
  answered w v none e same = inr (
      subst (λ (y : Result AdminReply × World env). Untouched w y.1)
        (sym (bind-after_ok (session_for now r) Guarded e)) same)
  answered w v (some sess) e same = elim (guarded-Carried sess w v same) [
    | inr k ↦ inr (
        subst (λ (y : Result AdminReply × World env). Untouched w y.1)
          (sym (bind-after_ok (session_for now r) Guarded e)) k)
    | inl (who, token, run) ↦ inl (
      sess,
      (
        ap (λ y. y.0) e,
        who,
        token,
        bind-after_ok (session_for now r) Guarded e
            ∙ run
            ∙ ap (λ y. perform admin now form sess y.1) (sym e),
      ),
    )
  ]

  -- Whatever the servers hold, and whether or not they answer: a form that is posted to the console
  -- changes nothing, unless the request has a session, of a member of the group system_admins, and
  -- carries the hash of "dvarpala-csrf|" and that session's token; then it is what the form's action
  -- does for that session.
  pub post-Carried :
      (w : World env)
      → ((sess : Session) × Carried admin now r csrf form w sess)
        ⊎ Untouched w (post admin now r csrf form w).1
  unfolding post require_admin
  post-Carried w =
      let m = session_for now r in
      let same = session_for-Untouched now r w in
      elim (run-cases m w) [
        | inr (x, v, e) ↦ inr (
            subst (λ (y : Result AdminReply × World env). Untouched w y.1)
              (sym (bind-after_err m Guarded e))
              (subst (λ (y : Result (Option Session) × World env). Untouched w y.1) e same))
        | inl (o, v, e) ↦
            let left =
              subst (λ (y : Result (Option Session) × World env). Untouched w y.1) e same in
            answered w v o e left
      ]
