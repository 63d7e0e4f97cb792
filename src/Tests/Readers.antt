-- ===== src/Tests/Readers.antt =====
-- internal/auth/session.go as its readers see it, on the small deployment: Sam signs in and leaves.
use dvarpala.Base.{◌*◌, ◌≡◌, refl, some, codes, arith}
use dvarpala.Models.{hour}
use dvarpala.Platform.{World}
use dvarpala.Auth.Session.{get_by_client_ip}
use dvarpala.Auth.Session.Reachable.{Operation, creating, leaving, perform}
use dvarpala.Auth.Session.Readers.{Readings, answer, nothing, promised, Along, begun, along}
use dvarpala.Auth.Session.Refinement.{Along-answer}
use dvarpala.Tests.Local.{local, local-IsReliable, start, sam_ip, sam_session}

abbrev signing_in : Operation
signing_in = creating (8 * hour) (some (codes "t7")) sam_session

abbrev signed_in : World local
signed_in = perform 1000 signing_in start

abbrev gone : World local
gone = perform 2000 (leaving sam_ip) signed_in

abbrev sam_promised : Readings
sam_promised = promised 2000 (leaving sam_ip) (promised 1000 signing_in nothing)

sam_along : Along 2000 gone sam_promised
sam_along =
    along (leaving sam_ip)
      (along signing_in (begun start (λ k. refl) (λ a. refl)) (omega arith) (λ tok e. refl))
      (omega arith) tt

Along-answer_example :
    answer (get_by_client_ip 3000 sam_ip gone).0 ≡ sam_promised.of_address 3000 sam_ip
Along-answer_example =
    (Along-answer local-IsReliable 2000 3000 gone sam_promised sam_along (omega arith)).1 sam_ip
