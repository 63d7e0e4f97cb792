-- ===== src/Tests/Mail.antt =====
-- internal/auth/mailer.go at concrete settings.
use dvarpala.Base.{
  ℕ, ◌+◌, ◌*◌, ◌≡◌, refl, Bool, true, false, Text, codes, List, [], Option, none, some, ltb, any,
  arith, if◌then◌else◌,
}
use dvarpala.Models.{second}
use dvarpala.Auth.Mail.{
  SmtpMailer, Server, Command, send_code, header_safe, compose, converse, say, effective_timeout,
  dial_tries,
}
use dvarpala.Auth.Mail.Secrecy.{is_auth, Private, send_code-Private}
use dvarpala.Auth.Mail.Dialling.{IsTimely, InTime, dial_with_retry, dial_with_retry-InTime}
use dvarpala.Auth.Mail.Choice.{MailerSettings, Chosen, new_mailer, new_mailer-Chosen}

abbrev no_ipv6 : Text → Bool
no_ipv6 host = false

abbrev pub mailer : SmtpMailer
mailer = record {
  host = codes "smtp.example.com";
  port = 587;
  username = codes "u";
  password = codes "p";
  from = codes "vpn@example.com";
  from_name = [];
  timeout = 0;
}

-- A server that offers STARTTLS and accepts everything.
abbrev agreeable : Server
agreeable = record { is_tls = false; offers_start_tls = true; accepts = λ said c. true }

abbrev trace : List Command
trace =
    (send_code no_ipv6 mailer (some agreeable) (some (codes "0a")) (codes "today") (codes "a@b.c")
      (codes "123456")).1

sends_auth : any is_auth trace ≡ true
unfolding send_code any header_safe compose converse say
sends_auth = refl

send_code-Private_example : Private no_ipv6 mailer agreeable trace
send_code-Private_example =
    send_code-Private no_ipv6 mailer agreeable (codes "a@b.c") (some (codes "0a")) (codes "today")
      (codes "123456") sends_auth

-- A dial that fails after three seconds, or when it is given up.
abbrev failing : ℕ → ℕ → Option Bool × ℕ
failing t u = (none, (if ltb (t + 3 * second) u then t + 3 * second else u))

failing-IsTimely : IsTimely failing
failing-IsTimely t u h = ground arith

dial_with_retry-InTime_example :
    InTime dial_tries (7 + effective_timeout mailer) (dial_with_retry failing mailer 7)
dial_with_retry-InTime_example = dial_with_retry-InTime failing failing-IsTimely mailer 7

abbrev settings : MailerSettings
settings = record {
  brevo_api_key = codes " ";
  brevo_from = [];
  brevo_from_name = [];
  smtp_host = [];
  smtp_port = 0;
  smtp_username = [];
  smtp_password = [];
  smtp_from = [];
  smtp_from_name = [];
  server_mode = codes " Debug";
}

new_mailer-Chosen_example : Chosen settings (new_mailer settings)
new_mailer-Chosen_example = new_mailer-Chosen settings
