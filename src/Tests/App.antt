-- ===== src/Tests/App.antt =====
-- internal/app/app.go: a start with Google and codes, in release mode.
use dvarpala.Base.{
  ◌≡◌, Text, refl, true, false, codes, [], ◌∷◌, ◌++◌, some, trim_space, to_lower, text_eq,
}
use dvarpala.Platform.{ok, err, unknown_provider, ◌>>=◌}
use dvarpala.Services.Domains.{seed_from_config}
use dvarpala.Auth.Login.{get_provider}
use dvarpala.Auth.Providers.{new_google_provider, google_provider, dev_allowed}
use dvarpala.Auth.Mail.Choice.{MailerSettings, Mailer, by_smtp, new_mailer}
use dvarpala.App.{
  Settings, Dvarpala, google_way, mailer_way, otp_way, dev_way, assembled, new_dvarpala,
}
use dvarpala.App.Guarded.{new_dvarpala-guarded}
use dvarpala.Tests.Local.{local, start}
use dvarpala.Tests.Providers.{api, google}
use dvarpala.Tests.Mail.{mailer}

abbrev mail_settings : MailerSettings
mail_settings = record {
  brevo_api_key = [];
  brevo_from = [];
  brevo_from_name = [];
  smtp_host = codes "smtp.example.com";
  smtp_port = 587;
  smtp_username = codes "u";
  smtp_password = codes "p";
  smtp_from = codes "vpn@example.com";
  smtp_from_name = [];
  server_mode = codes "release";
}

abbrev settings : Settings
settings = record {
  google_client_id = codes "id";
  google_client_secret = codes "secret";
  google_redirect_url = codes "https://vpn.example.com/auth/google/callback";
  otp_enabled = true;
  mail = mail_settings;
  allowed_domains = [];
  session_duration = 28800;
  captive_portal_timeout = 900;
}

-- The application that the start gives, of the steps that it takes.
abbrev app : Dvarpala local
app =
    let mail : Mailer × Text = (by_smtp mailer, codes "smtp.example.com, as vpn@example.com") in
    assembled settings
      ((google_provider api google, codes "Google login enabled") ∷ []
        ++ otp_way (some mail)
        ++ dev_way settings)
      (some mail)

started : new_dvarpala {env = local} api 5 settings start ≡ (ok app, start)
unfolding new_dvarpala google_way mailer_way new_mailer new_google_provider seed_from_config
    trim_space ◌>>=◌
started = refl

released : dev_allowed settings.mail.server_mode ≡ false
unfolding dev_allowed trim_space to_lower text_eq
released = refl

new_dvarpala-guarded_example : (get_provider app.auth (codes "dev") start).0 ≡ err unknown_provider
new_dvarpala-guarded_example =
    (new_dvarpala-guarded api 5 settings app start start released started).0 start
