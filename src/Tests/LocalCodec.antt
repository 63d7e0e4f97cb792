-- ===== src/Tests/LocalCodec.antt =====
-- A codec for sessions in place of JSON: each text behind its length.
use dvarpala.Base.{
  ℕ, zero, suc, ◌≡◌, refl, ap, List, [], ◌∷◌, ◌++◌, Option, none, some, Text, take, length,
}
use dvarpala.Models.{Session}

abbrev drop : ℕ → Text → Text
drop zero xs = xs
drop (suc n) [] = []
drop (suc n) (x ∷ xs) = drop n xs

unfoldable pub put : Text → Text → Text
put t rest = length t ∷ (t ++ rest)

unfoldable pub put_all : List Text → Text → Text
put_all [] rest = rest
put_all (t ∷ ts) rest = put t (put_all ts rest)

-- A text and what follows it.
unfoldable pub cut : Text → Text × Text
cut [] = ([], [])
cut (n ∷ s) = (take n s, drop n s)

unfoldable pub cut_all : ℕ → Text → List Text × Text
cut_all zero s = ([], s)
cut_all (suc k) s = let (t, rest) = cut s in let (ts, rest') = cut_all k rest in (t ∷ ts, rest')

take-append : (t rest : Text) → take (length t) (t ++ rest) ≡ t
take-append [] rest = refl
take-append (x ∷ t) rest = ap (◌∷◌ x) (take-append t rest)

drop-append : (t rest : Text) → drop (length t) (t ++ rest) ≡ rest
drop-append [] rest = refl
drop-append (x ∷ t) rest = drop-append t rest

cut-put : (t rest : Text) → cut (put t rest) ≡ (t, rest)
unfolding cut put
cut-put t rest = λ i. (take-append t rest i, drop-append t rest i)

cut_all-put_all :
    (ts : List Text) (rest : Text) → cut_all (length ts) (put_all ts rest) ≡ (ts, rest)
unfolding cut_all put_all
cut_all-put_all [] rest = refl
cut_all-put_all (t ∷ ts) rest = rw (cut-put t (put_all ts rest)) (rw (cut_all-put_all ts rest) refl)

unfoldable pub marshal : Session → Text
marshal s =
    s.user_id
    ∷ s.issued_at
    ∷ s.expires
    ∷ length s.groups
    ∷ put s.token (put s.email (put s.provider (put s.client_ip (put_all s.groups []))))

unfoldable pub unmarshal : Text → Option Session
unmarshal (user ∷ issued ∷ ends ∷ count ∷ s) =
    let (token, s1) = cut s in
    let (email, s2) = cut s1 in
    let (provider, s3) = cut s2 in
    let (client_ip, s4) = cut s3 in
    let (groups, s5) = cut_all count s4 in
    some (record {
      token = token;
      user_id = user;
      email = email;
      provider = provider;
      groups = groups;
      client_ip = client_ip;
      issued_at = issued;
      expires = ends;
    })
unmarshal _ = none

pub unmarshal-marshal : (s : Session) → unmarshal (marshal s) ≡ some s
unfolding marshal unmarshal
unmarshal-marshal s = simp (cut-put, cut_all-put_all)
