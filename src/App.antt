-- ===== src/App.antt =====
-- internal/app/app.go: how the program is put together at start-up. The connections, the routes and
-- the trusted proxies are not modelled, nor is what is written to the server's log.
pub mod Guarded
use dvarpala.Base.{
  ℕ, ◌*◌, Bool, true, false, Text, codes, List, [], ◌∷◌, ◌++◌, map, Option, none, some, is_empty,
  if◌then◌else◌,
}
use dvarpala.Models.{second}
use dvarpala.Platform.{Env, Exec, mail_failed, not_configured, pure, raise, ◌>>=◌, ◌>>◌}
use dvarpala.Services.Domains.{seed_from_config}
use dvarpala.Auth.Session.{effective_ttl}
use dvarpala.Auth.Login.{Provider, Service, normalise_domains, otp_provider}
use dvarpala.Auth.Providers.{
  GoogleApi, GoogleProvider, new_google_provider, google_provider, dev_allowed, dev_provider,
}
use dvarpala.Auth.Mail.{Sent, done, failed}
use dvarpala.Auth.Mail.Choice.{MailerSettings, Mailer, by_brevo, by_smtp, by_log, new_mailer}
use dvarpala.Vpn.Idle.{IdleSweeper, new_idle_sweeper}

-- What the configuration says of signing in. Durations are in seconds; the server's mode is that of
-- the mail settings.
pub record Settings : Type 0 where
  pub google_client_id : Text
  pub google_client_secret : Text
  pub google_redirect_url : Text
  pub otp_enabled : Bool
  pub mail : MailerSettings
  pub allowed_domains : List Text
  pub session_duration : ℕ
  pub captive_portal_timeout : ℕ

pub record Dvarpala (env : Env) : Type 0 where
  pub sign_in : List Text
  pub sweeper : Option IdleSweeper
  pub auth : Service env
  pub mailer : Option Mailer

-- The lines of SignInSummary.
abbrev pub mail_line : Mailer × Text → Text
mail_line (by_log, described) = codes "WARNING: sign-in codes are written to " ++ described
mail_line (by_brevo m, described) = codes "sign-in codes sent through " ++ described
mail_line (by_smtp m, described) = codes "sign-in codes sent through " ++ described

abbrev pub dev_line : Text
dev_line =
    codes
      "WARNING: the development login is enabled - it accepts any email with no password (server.mode=debug)"

abbrev pub nobody_line : Text
nobody_line = codes "WARNING: nobody can sign in - no login method is configured"

abbrev pub is_given : {A : Type 0} → Option A → Bool
is_given none = false
is_given (some a) = true

abbrev pub mailer_of : Option (Mailer × Text) → Option Mailer
mailer_of none = none
mailer_of (some m) = some m.0

-- A way to sign in, as it is added to the registry: its provider, and what is said of it.
abbrev pub Way : Env → Type 0
Way env = Provider env × Text

module _ {env : Env} where
  abbrev pub google_made : GoogleApi → Option GoogleProvider → Exec env (List (Way env))
  google_made api none = raise not_configured
  google_made api (some g) = pure ((google_provider api g, codes "Google login enabled") ∷ [])

  unfoldable pub google_way : GoogleApi → Settings → Exec env (List (Way env))
  google_way api st =
      if is_empty st.google_client_id
      then pure []
      else google_made api (
          new_google_provider st.google_client_id st.google_client_secret st.google_redirect_url [])

  abbrev pub mailer_made : Sent (Mailer × Text) → Exec env (Option (Mailer × Text))
  mailer_made (failed e) = raise mail_failed
  mailer_made (done m) = pure (some m)

  unfoldable pub mailer_way : Settings → Exec env (Option (Mailer × Text))
  mailer_way st = if st.otp_enabled then mailer_made (new_mailer st.mail) else pure none

  abbrev pub otp_way : Option (Mailer × Text) → List (Way env)
  otp_way none = []
  otp_way (some m) = (otp_provider, mail_line m) ∷ []

  abbrev pub dev_way : Settings → List (Way env)
  dev_way st = if dev_allowed st.mail.server_mode then (dev_provider, dev_line) ∷ [] else []

  abbrev pub summary : List (Way env) → List Text
  summary [] = nobody_line ∷ []
  summary (v ∷ ws) = map (λ (x : Way env). x.1) (v ∷ ws)

  abbrev pub assembled : Settings → List (Way env) → Option (Mailer × Text) → Dvarpala env
  assembled st ways mail = record {
    sign_in = summary ways;
    sweeper = new_idle_sweeper (st.captive_portal_timeout * second);
    auth = record {
      providers = map (λ (x : Way env). x.0) ways;
      session_ttl = effective_ttl (st.session_duration * second);
      has_domains = true;
      allowed_domains = normalise_domains st.allowed_domains;
      has_otp = is_given mail;
      has_break_glass = true;
    };
    mailer = mailer_of mail;
  }

  -- NewDvarpala
  unfoldable pub new_dvarpala : GoogleApi → ℕ → Settings → Exec env (Dvarpala env)
  new_dvarpala api now st = do
    google ← google_way api st
    mail ← mailer_way st
    seed_from_config now st.allowed_domains
    pure (assembled st (google ++ otp_way mail ++ dev_way st) mail)
