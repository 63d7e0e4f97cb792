-- ===== src/Auth/Mail.antt =====
-- internal/auth/mailer.go, and the texts of internal/auth/brevo.go: how a code is mailed. What the
-- mail server does, and how long a dial takes, are parameters; so are the layout of the date, the
-- random bytes of a message's name (hex, none where crypto/rand fails) and which texts with a colon
-- package net reads as a loopback address of IPv6.
pub mod Secrecy
pub mod Dialling
pub mod Choice
use dvarpala.Base.{
  join, ℕ, zero, suc, ◌+◌, ◌-◌, ◌*◌, ◌/◌, ◌&&◌, ◌||◌, not, Bool, true, false, Text, codes, List, [],
  ◌∷◌, ◌++◌, Option, none, some, is_empty, to_lower, trim_space, text_eq, any, after_last?, ltb,
  leb, ◌==◌, if◌then◌else◌,
}
use dvarpala.Models.{second}
use dvarpala.Net.{parse_ipv4}

-- What goes wrong with a mail.
pub data MailError : Type 0 where
  no_from no_server line_break no_random unreachable : MailError
  not_secured clear_text refused : MailError
  no_key no_mailer : MailError
  -- with the reason that Brevo gives
  declined : Text → MailError

pub data Sent (A : Type 0) : Type 0 where
  done : A → Sent A
  failed : MailError → Sent A

pub record SmtpMailer : Type 0 where
  pub host : Text
  pub port : ℕ
  pub username : Text
  pub password : Text
  pub from : Text
  pub from_name : Text
  pub timeout : ℕ

abbrev pub mail_timeout : ℕ
mail_timeout = 20 * second

abbrev pub dial_timeout : ℕ
dial_timeout = 8 * second

abbrev pub dial_tries : ℕ
dial_tries = 3

-- 300 * time.Millisecond
abbrev pub dial_pause : ℕ
dial_pause = 300000000

abbrev pub effective_timeout : SmtpMailer → ℕ
effective_timeout m = if ltb 0 m.timeout then m.timeout else mail_timeout

-- headerSafe
abbrev pub is_break : ℕ → Bool
is_break c = c == b'\r' || c == b'\n'

unfoldable pub header_safe : Text → Bool
header_safe v = not (any is_break v)

-- codeMessage, in lines.
abbrev pub message_lines : Text → List Text
message_lines code =
    (codes "Your sign-in code is " ++ code)
    ∷ []
    ∷ codes "It expires in five minutes and can be used once."
    ∷ []
    ∷ codes "If you did not ask to sign in, ignore this message - somebody"
    ∷ codes "typed your address by mistake, and nothing has happened to your"
    ∷ codes "account."
    ∷ []
    ∷ codes "Never share this code. Dvarpala will never ask you for it."
    ∷ []

unfoldable pub code_message : Text → Text
code_message code = join (b'\n' ∷ []) (message_lines code)

-- strings.ReplaceAll of a line feed by a carriage return and a line feed.
unfoldable pub crlf_lines : Text → Text
crlf_lines [] = []
crlf_lines (c ∷ s) =
    let rest = crlf_lines s in if c == b'\n' then b'\r' ∷ b'\n' ∷ rest else c ∷ rest

-- messageID: the domain is what follows the last "@", where something does.
abbrev pub id_domain : Text → Text
id_domain from = elim (after_last? b'@' from) [
  | none ↦ codes "dvarpala.local"
  | some d ↦ if is_empty d then codes "dvarpala.local" else d
]

abbrev pub message_id : Option Text → Text → Sent Text
message_id none from = failed no_random
message_id (some random) from =
    done (codes "<" ++ random ++ codes "@" ++ id_domain from ++ codes ">")

abbrev pub headers : Text → Text → Text → Text → Text → List Text
headers name from to date id =
    (codes "From: " ++ name ++ codes " <" ++ from ++ codes ">")
    ∷ (codes "To: " ++ to)
    ∷ codes "Subject: Your Dvarpala sign-in code"
    ∷ (codes "Date: " ++ date)
    ∷ (codes "Message-ID: " ++ id)
    ∷ codes "MIME-Version: 1.0"
    ∷ codes "Content-Type: text/plain; charset=utf-8"
    ∷ codes "Auto-Submitted: auto-generated"
    ∷ codes "X-Auto-Response-Suppress: All"
    ∷ []

abbrev pub crlf : Text
crlf = b'\r' ∷ b'\n' ∷ []

abbrev pub message_with : Text → Text → Text → Text → Text → Sent Text → Sent Text
message_with name from to date code (failed e) = failed e
message_with name from to date code (done id) = done (
    join crlf (headers name from to date id)
    ++ crlf
    ++ crlf
    ++ crlf_lines (code_message code)
    ++ crlf)

unfoldable pub compose : SmtpMailer → Option Text → Text → Text → Text → Sent Text
compose m random date to code =
    let name = if is_empty m.from_name then codes "Dvarpala" else m.from_name in
    if not (header_safe name)
    then failed line_break
    else message_with name m.from to date code (message_id random m.from)

-- isLoopback: 127.0.0.0/8 is loopback.
unfoldable pub is_loopback : (Text → Bool) → Text → Bool
is_loopback ipv6_loopback host =
    text_eq host (codes "localhost")
    || elim (parse_ipv4 host) [ none ↦ ipv6_loopback host | some ip ↦ ip / 16777216 == 127 ]

-- What is sent to the server.
pub data Command : Type 0 where
  start_tls quit : Command
  auth : Text → Text → Command
  mail rcpt data_of : Text → Command

-- The server: whether the connection is encrypted from the outset, what it offers, and which
-- commands it accepts after those sent before.
pub record Server : Type 0 where
  pub is_tls : Bool
  pub offers_start_tls : Bool
  pub accepts : List Command → Command → Bool

-- A conversation: how it ended, and the commands sent, the first in front.
abbrev pub Conversation : Type 0
Conversation = Sent (Unit {0}) × List Command

-- Commands one after the other; the first that is refused ends the conversation.
unfoldable pub say : Server → List Command → List (Command × MailError) → Conversation
say server said [] = (done tt, [])
say server said ((c, e) ∷ cs) =
    let rest = say server (said ++ c ∷ []) cs in
    if server.accepts said c then (rest.0, c ∷ rest.1) else (failed e, c ∷ [])

abbrev pub delivery : SmtpMailer → Text → Text → List (Command × MailError)
delivery m to msg =
    let rest =
      (mail m.from, refused) ∷ (rcpt to, refused) ∷ (data_of msg, refused) ∷ (quit, refused) ∷ [] in
    if is_empty m.username then rest else (auth m.username m.password, refused) ∷ rest

-- send, past the dial.
unfoldable pub converse : (Text → Bool) → SmtpMailer → Server → Text → Text → Conversation
converse ipv6_loopback m server to msg =
    if server.is_tls
    then say server [] (delivery m to msg)
    else if server.offers_start_tls
    then say server [] ((start_tls, not_secured) ∷ delivery m to msg)
    else if not (is_empty m.username) && not (is_loopback ipv6_loopback m.host)
    then (failed clear_text, [])
    else say server [] (delivery m to msg)

abbrev pub deliver : (Text → Bool) → SmtpMailer → Option Server → Text → Sent Text → Conversation
deliver ipv6_loopback m reached to (failed e) = (failed e, [])
deliver ipv6_loopback m none to (done msg) = (failed unreachable, [])
deliver ipv6_loopback m (some server) to (done msg) = converse ipv6_loopback m server to msg

-- SendCode, with the server that the dial reached, if it reached one.
unfoldable pub send_code :
    (Text → Bool) → SmtpMailer → Option Server → Option Text → Text → Text → Text → Conversation
send_code ipv6_loopback m reached random date to code =
    if is_empty m.from
    then (failed no_from, [])
    else if is_empty m.host
    then (failed no_server, [])
    else if not (header_safe to)
    then (failed line_break, [])
    else deliver ipv6_loopback m reached to (compose m random date to code)
