-- ===== src/Auth/Session/Keys.antt =====
-- The keys of sessions, told apart.
use dvarpala.Base.{◌≡◌, refl, false, Text, text_eq}
use dvarpala.Auth.Session.{session_key, auth_key}

pub session_key-eq : (s t : Text) → text_eq (session_key s) (session_key t) ≡ text_eq s t
unfolding session_key text_eq
session_key-eq s t = refl

pub auth_key-eq : (s t : Text) → text_eq (auth_key s) (auth_key t) ≡ text_eq s t
unfolding auth_key text_eq
auth_key-eq s t = refl

pub session_key-ne-auth_key : (s t : Text) → text_eq (session_key s) (auth_key t) ≡ false
unfolding session_key auth_key text_eq
session_key-ne-auth_key s t = refl

pub auth_key-ne-session_key : (s t : Text) → text_eq (auth_key s) (session_key t) ≡ false
unfolding session_key auth_key text_eq
auth_key-ne-session_key s t = refl
