-- ===== src/Tests/Auth.antt =====
-- Sessions and codes on the small deployment.
use dvarpala.Base.{
  ◌*◌, ◌≡◌, refl, List, [], ◌∷◌, some, Text, codes, arith, text_eq, trim_space, to_lower, inl,
}
use dvarpala.Models.{second}
use dvarpala.Platform.{World, ok, err, no_session, too_soon, keys, redis_get, ◌>>=◌}
use dvarpala.Platform.Redis.{at, set}
use dvarpala.Auth.Session.{
  session_key, auth_key, stamp, store_session, create, fetch, get_session, get_by_client_ip, revoke,
}
use dvarpala.Auth.Session.Lifecycle.{create-get}
use dvarpala.Auth.Session.Ending.{revoke-get}
use dvarpala.Auth.Otp.{
  otp_key, otp_attempts_key, otp_cooldown_key, otp_daily_key, generate_code, request, verify,
  exchange,
}
use dvarpala.Auth.Otp.Guesses.{Pending, Guess, guess_all, verdicts, guess_all_lem}
use dvarpala.Auth.Otp.Cooldown.{request-request}
use dvarpala.Auth.Otp.Flow.{request-verify-exchange}
use dvarpala.Tests.LocalCodec.{marshal, unmarshal, put, put_all, cut, cut_all}
use dvarpala.Tests.Local.{local, local-IsReliable, start, no_keys, sam_ip, sam_session}

create-get_example :
    (create 1000 500 (some (codes "t1")) sam_session start).0
    ≡ ok (stamp sam_session (codes "t1") 1000 500)
create-get_example = (create-get local-IsReliable 1000 500 1200 (codes "t1") sam_session start).0

-- Sam is signed in, over the tunnel.
abbrev pub signed_in : World local
signed_in = record start {
  redis = store_session 1000 8000000000000 sam_session (local.marshal sam_session) no_keys;
}

pub sam_reads : (get_by_client_ip 2000 sam_ip signed_in).0 ≡ ok sam_session
unfolding fetch ◌>>=◌ redis_get at auth_key session_key text_eq marshal unmarshal put put_all cut
    cut_all
sam_reads = refl

sam_reads_token : (get_session 2000 (codes "t0") signed_in).0 ≡ ok sam_session
unfolding fetch ◌>>=◌ redis_get at auth_key session_key text_eq marshal unmarshal put put_all cut
    cut_all
sam_reads_token = refl

revoke-get_example :
    (get_session 3000 (codes "t0") (revoke 2000 (codes "t0") signed_in).1).0 ≡ err no_session
revoke-get_example =
    (revoke-get local-IsReliable 2000 3000 (codes "t0") sam_session signed_in sam_reads_token).1

-- A code 000042 is pending until 300 s.
abbrev sam_mail : Text
sam_mail = codes "sam@acme.com"

abbrev pending : World local
pending = record start { redis = set 0 (otp_key sam_mail) (codes "000042") (300 * second) no_keys }

pending-Pending : Pending sam_mail (codes "000042") (300 * second) 0 (keys pending)
unfolding otp_key otp_attempts_key text_eq
pending-Pending = record { code = refl; counter = inl (refl, refl) }

-- Six guesses, of which the last is right.
abbrev guesses : List Guess
guesses =
    (1, codes "1")
    ∷ (2, codes "2")
    ∷ (3, codes "3")
    ∷ (4, codes "4")
    ∷ (5, codes "5")
    ∷ (6, codes "000042")
    ∷ []

guess_all_lem_example :
    guess_all (codes " Sam@acme.com") (codes "s") guesses pending ≡ verdicts 5 guesses
unfolding text_eq trim_space to_lower
guess_all_lem_example =
    guess_all_lem local-IsReliable (codes " Sam@acme.com") (codes "s") (codes "000042")
      (300 * second) guesses pending pending-Pending
      (
        omega arith,
        omega arith,
        refl,
        (
          omega arith,
          omega arith,
          refl,
          (
            omega arith,
            omega arith,
            refl,
            (omega arith, omega arith, refl, (omega arith, omega arith, refl, tt)),
          ),
        ),
      )

request-request_example :
    (request 30 (some 7) sam_mail (request 20 (some 42) sam_mail start).1).0 ≡ err too_soon
unfolding at otp_cooldown_key otp_daily_key
request-request_example =
    ((request-request local-IsReliable sam_mail 20 42 30 (some 7) start refl (omega arith) refl).0
      (omega arith)).0

request-verify-exchange_example :
    (exchange 50
      (codes "s")
      (verify 40 sam_mail
        (codes " 000042")
        (codes "s")
        (request 20 (some 42) sam_mail start).1).1).0
    ≡ ok sam_mail
unfolding at otp_cooldown_key otp_daily_key trim_space generate_code to_lower
request-verify-exchange_example =
    (request-verify-exchange local-IsReliable sam_mail 20 42 40 50 60 (codes " 000042") (codes "s")
      start refl (omega arith) refl (omega arith) refl (omega arith)).2
