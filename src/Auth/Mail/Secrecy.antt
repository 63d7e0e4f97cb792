-- ===== src/Auth/Mail/Secrecy.antt =====
-- internal/auth/mailer.go: when the credentials of the mail server are sent.
use dvarpala.Base.{
  ◌≡◌, refl, sym, ap, ◌∙◌, subst, ◌⊎◌, inl, inr, Bool, true, false, not, Text, List, [], ◌∷◌, ◌++◌,
  map, Option, some, is_empty, any, Bool-cases, arith, if◌then◌else◌,
}
use dvarpala.Auth.Mail.{
  SmtpMailer, Server, Command, start_tls, quit, auth, mail, rcpt, data_of, MailError, not_secured,
  no_from, no_server, line_break, Conversation, say, delivery, converse, is_loopback, deliver,
  send_code, Sent, done, failed, compose, header_safe,
}

abbrev pub is_auth : Command → Bool
is_auth (auth u p) = true
is_auth start_tls = false
is_auth quit = false
is_auth (mail a) = false
is_auth (rcpt a) = false
is_auth (data_of t) = false

say-auth :
    (server : Server) (said : List Command) (cs : List (Command × MailError))
    → any is_auth (map (λ c. c.0) cs) ≡ false
    → any is_auth (say server said cs).1 ≡ false
unfolding say any
say-auth server said [] h = refl
say-auth server said ((c, e) ∷ cs) h = ground (arith, say-auth server (said ++ c ∷ []) cs)

-- Without a user name a delivery has no credentials in it.
delivery-auth :
    (m : SmtpMailer) (to msg : Text)
    → is_empty m.username ≡ true
    → any is_auth (map (λ c. c.0) (delivery m to msg)) ≡ false
unfolding any
delivery-auth m to msg h = ground (arith)

-- The conversation began with a STARTTLS that the server accepted.
abbrev pub Secured : Server → List Command → Type 0
Secured server cs =
    (rest : List Command) × (cs ≡ start_tls ∷ rest) × (server.accepts [] start_tls ≡ true)

-- The connection was encrypted from the outset, or before anything else was said, or the server is
-- this machine.
abbrev pub Private : (Text → Bool) → SmtpMailer → Server → List Command → Type 0
Private ipv6_loopback m server cs =
    (server.is_tls ≡ true) ⊎ (Secured server cs ⊎ (is_loopback ipv6_loopback m.host ≡ true))

say-Secured :
    (server : Server) (cs : List (Command × MailError))
    → any is_auth (say server [] ((start_tls, not_secured) ∷ cs)).1 ≡ true
    → Secured server (say server [] ((start_tls, not_secured) ∷ cs)).1
unfolding say any
say-Secured server cs h = elim (Bool-cases (server.accepts [] start_tls)) [
  | inl e ↦ rw e (((say server (start_tls ∷ []) cs).1, refl, refl))
  | inr e ↦ absurd (ground arith)
]

-- In the clear, and to another machine, there are no credentials.
converse-auth :
    (ipv6_loopback : Text → Bool) (m : SmtpMailer) (server : Server) (to msg : Text)
    → server.is_tls ≡ false
    → server.offers_start_tls ≡ false
    → is_loopback ipv6_loopback m.host ≡ false
    → any is_auth (converse ipv6_loopback m server to msg).1 ≡ false
unfolding converse any
converse-auth ipv6_loopback m server to msg e f l = elim (Bool-cases (is_empty m.username)) [
  | inl u ↦ ground (arith, say-auth server [] (delivery m to msg), delivery-auth m to msg)
  | inr u ↦ ground arith
]

module _ (ipv6_loopback : Text → Bool) (m : SmtpMailer) (server : Server) (to : Text) where
  -- What holds of a conversation that this server allows.
  abbrev Fits : Conversation → Type 0
  Fits r = any is_auth r.1 ≡ true → Private ipv6_loopback m server r.1

  converse-Fits : (msg : Text) → Fits (converse ipv6_loopback m server to msg)
  unfolding converse
  converse-Fits msg h = elim (Bool-cases server.is_tls) [
    | inl e ↦ inl e
    | inr e ↦ elim (Bool-cases server.offers_start_tls) [
      | inl f ↦
          let cs = delivery m to msg in
          let q : converse ipv6_loopback m server to msg
              ≡ say server [] ((start_tls, not_secured) ∷ cs) =
            ground arith in
          inr (
            inl (
              subst (λ r. Secured server r.1) (sym q)
                (say-Secured server cs (sym (ap (λ r. any is_auth r.1) q) ∙ h))))
      | inr f ↦ elim (Bool-cases (is_loopback ipv6_loopback m.host)) [
        | inl l ↦ inr (inr l)
        | inr l ↦
            let q = converse-auth ipv6_loopback m server to msg e f l in absurd (ground (arith, q))
      ]
    ]
  ]

  deliver-Fits : (r : Sent Text) → Fits (deliver ipv6_loopback m (some server) to r)
  unfolding any
  deliver-Fits (failed e) h = absurd (ground arith)
  deliver-Fits (done msg) h = converse-Fits msg h

  unless-Fits :
      (b : Bool) (e : MailError) (r : Conversation)
      → Fits r
      → Fits (if b then (failed e, []) else r)
  unfolding any
  unless-Fits true e r k h = absurd (ground arith)
  unless-Fits false e r k h = k h

  -- Where SendCode sends credentials to the mail server, the connection is encrypted from the outset,
  -- or the first thing said was a STARTTLS that the server accepted, or the server's host is a
  -- loopback address.
  pub send_code-Private :
      (random : Option Text) (date code : Text)
      → let cs = (send_code ipv6_loopback m (some server) random date to code).1 in
        any is_auth cs ≡ true → Private ipv6_loopback m server cs
  unfolding send_code
  send_code-Private random date code =
      let r = deliver ipv6_loopback m (some server) to (compose m random date to code) in
      unless-Fits (is_empty m.from) no_from _ (
        unless-Fits (is_empty m.host) no_server _ (
          unless-Fits (not (header_safe to)) line_break r
            (deliver-Fits (compose m random date to code))))
