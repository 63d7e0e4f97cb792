-- ===== src/Auth/Mail/Choice.antt =====
-- internal/auth/mailer.go (NewMailer, LogMailer) and internal/auth/brevo.go: how a deployment sends
-- mail, and the request that a code becomes for Brevo. The answer to the request is a parameter.
use dvarpala.Base.{
  ℕ, ◌≡◌, refl, ◌⊎◌, inl, inr, Bool-cases, ◌&&◌, not, Bool, true, false, Text, codes, [], ◌∷◌, ◌++◌,
  Option, none, some, is_empty, to_lower, trim_space, text_eq, ltb, leb, arith, if◌then◌else◌,
}
use dvarpala.Auth.Mail.{
  SmtpMailer, no_from, no_key, no_mailer, line_break, unreachable, declined, Sent, done, failed,
  header_safe, code_message, mail_timeout,
}

-- The end of the request is zero where the default of mailer.go is meant.
pub record BrevoMailer : Type 0 where
  pub api_key : Text
  pub from : Text
  pub from_name : Text
  pub timeout : ℕ
  pub endpoint : Text

pub record BrevoRequest : Type 0 where
  pub sender_name : Text
  pub sender : Text
  pub to : Text
  pub subject : Text
  pub text_content : Text

abbrev pub brevo_endpoint : Text
brevo_endpoint = codes "https://api.brevo.com/v3/smtp/email"

-- What Brevo answers: a status, and the explanation read from the body, or the body.
pub record BrevoReply : Type 0 where
  pub status : ℕ
  pub code : Text
  pub message : Text
  pub body : Text

-- brevoReason; a body that is not of the shape expected has no message.
unfoldable pub brevo_reason : BrevoReply → Text
brevo_reason r =
    if not (is_empty r.message)
    then (if is_empty r.code then r.message else r.code ++ codes ": " ++ r.message)
    else if is_empty (trim_space r.body)
    then codes "no explanation given"
    else trim_space r.body

abbrev pub brevo_request : BrevoMailer → Text → Text → BrevoRequest
brevo_request m to code =
    let name = if is_empty m.from_name then codes "Dvarpala" else m.from_name in
    record {
      sender_name = name;
      sender = m.from;
      to = to;
      subject = codes "Your Dvarpala sign-in code";
      text_content = code_message code;
    }

abbrev pub brevo_verdict : Option BrevoReply → Sent (Unit {0})
brevo_verdict none = failed unreachable
brevo_verdict (some r) =
    if leb 200 r.status && ltb r.status 300 then done tt else failed (declined (brevo_reason r))

-- SendCode of BrevoMailer; `post` sends a request with a key to an address, within a time.
unfoldable pub brevo_send :
    (ℕ → Text → Text → BrevoRequest → Option BrevoReply)
    → BrevoMailer
    → Text
    → Text
    → Sent (Unit {0})
brevo_send post m to code =
    let endpoint = if is_empty m.endpoint then brevo_endpoint else m.endpoint in
    let timeout = if leb m.timeout 0 then mail_timeout else m.timeout in
    if is_empty m.api_key
    then failed no_key
    else if is_empty m.from
    then failed no_from
    else if not (header_safe to)
    then failed line_break
    else brevo_verdict (post timeout endpoint m.api_key (brevo_request m to code))

pub record MailerSettings : Type 0 where
  pub brevo_api_key : Text
  pub brevo_from : Text
  pub brevo_from_name : Text
  pub smtp_host : Text
  pub smtp_port : ℕ
  pub smtp_username : Text
  pub smtp_password : Text
  pub smtp_from : Text
  pub smtp_from_name : Text
  pub server_mode : Text

pub data Mailer : Type 0 where
  by_brevo : BrevoMailer → Mailer
  by_smtp : SmtpMailer → Mailer
  by_log : Mailer

-- Guard of LogMailer
unfoldable pub log_mailer_allowed : Text → Bool
log_mailer_allowed mode = text_eq (to_lower (trim_space mode)) (codes "debug")

abbrev pub or_else : Text → Text → Text
or_else a b = if is_empty a then b else a

abbrev pub choose_brevo : MailerSettings → Sent (Mailer × Text)
choose_brevo s =
    let from = or_else (trim_space s.brevo_from) (trim_space s.smtp_from) in
    let name = or_else (trim_space s.brevo_from_name) (trim_space s.smtp_from_name) in
    if is_empty from
    then failed no_from
    else done (
      by_brevo (record {
        api_key = trim_space s.brevo_api_key;
        from = from;
        from_name = name;
        timeout = 0;
        endpoint = [];
      }),
      codes "Brevo, as " ++ from,
    )

abbrev pub choose_smtp : MailerSettings → Sent (Mailer × Text)
choose_smtp s =
    let host = trim_space s.smtp_host in
    let from = trim_space s.smtp_from in
    done (
      by_smtp (record {
        host = host;
        port = s.smtp_port;
        username = trim_space s.smtp_username;
        password = s.smtp_password;
        from = from;
        from_name = trim_space s.smtp_from_name;
        timeout = 0;
      }),
      host ++ codes ", as " ++ from,
    )

-- NewMailer
unfoldable pub new_mailer : MailerSettings → Sent (Mailer × Text)
new_mailer s =
    if not (is_empty (trim_space s.brevo_api_key))
    then choose_brevo s
    else if not (is_empty (trim_space s.smtp_host))
    then choose_smtp s
    else if not (log_mailer_allowed s.server_mode)
    then failed no_mailer
    else done (by_log, codes "this server's own log (no mail service configured)")

-- What the settings say where a mailer, or none, was chosen.
abbrev pub Chosen : MailerSettings → Sent (Mailer × Text) → Type 0
Chosen s (done (by_brevo m, _)) =
    (m.api_key ≡ trim_space s.brevo_api_key)
    × ((is_empty m.api_key ≡ false) × (is_empty m.from ≡ false))
Chosen s (done (by_smtp m, _)) =
    (is_empty (trim_space s.brevo_api_key) ≡ true)
    × ((m.host ≡ trim_space s.smtp_host) × (is_empty m.host ≡ false))
Chosen s (done (by_log, _)) =
    (is_empty (trim_space s.brevo_api_key) ≡ true)
    × ((is_empty (trim_space s.smtp_host) ≡ true) × (log_mailer_allowed s.server_mode ≡ true))
Chosen s (failed e) =
    ((is_empty (trim_space s.brevo_api_key) ≡ false)
      × ((is_empty (trim_space s.brevo_from) ≡ true) × (is_empty (trim_space s.smtp_from) ≡ true)))
    ⊎ ((is_empty (trim_space s.brevo_api_key) ≡ true)
        × ((is_empty (trim_space s.smtp_host) ≡ true) × (log_mailer_allowed s.server_mode ≡ false)))

is_empty-or_else :
    (a b : Text) → is_empty (or_else a b) ≡ true → (is_empty a ≡ true) × (is_empty b ≡ true)
is_empty-or_else [] b h = (refl, h)
is_empty-or_else (c ∷ a) b h = absurd (ground arith)

choose_brevo-Chosen :
    (s : MailerSettings) → is_empty (trim_space s.brevo_api_key) ≡ false → Chosen s (choose_brevo s)
choose_brevo-Chosen s h =
    let from = or_else (trim_space s.brevo_from) (trim_space s.smtp_from) in
    elim (Bool-cases (is_empty from)) [
      | inl e ↦
          rw e (inl (h, is_empty-or_else (trim_space s.brevo_from) (trim_space s.smtp_from) e))
      | inr e ↦ rw e ((refl, (h, e)))
    ]

-- The mailer of a deployment is Brevo only with a key and a sender, a mail server only without a key
-- and with a host, and the log only without either and in debug mode. None is chosen only with a
-- key and no sender, or without a key and a host outside debug mode.
pub new_mailer-Chosen : (s : MailerSettings) → Chosen s (new_mailer s)
unfolding new_mailer
new_mailer-Chosen s = elim (Bool-cases (is_empty (trim_space s.brevo_api_key))) [
  | inr k ↦ rw k (choose_brevo-Chosen s k)
  | inl k ↦ elim (Bool-cases (is_empty (trim_space s.smtp_host))) [
    | inr h ↦ rw (k, h) ((k, (refl, h)))
    | inl h ↦ elim (Bool-cases (log_mailer_allowed s.server_mode)) [
      | inr d ↦ rw (k, h, d) (inr (k, (h, d)))
      | inl d ↦ rw (k, h, d) ((k, (h, d)))
    ]
  ]
]
