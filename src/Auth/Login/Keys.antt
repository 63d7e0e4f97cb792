-- ===== src/Auth/Login/Keys.antt =====
-- The keys of login attempts and of codes, told apart.
use dvarpala.Base.{◌≡◌, refl, false, Text, text_eq}
use dvarpala.Auth.Otp.{otp_key, otp_cooldown_key, otp_daily_key, otp_attempts_key, otp_verified_key}
use dvarpala.Auth.Login.{state_key}

module _ (s t : Text) where
  pub otp_key-ne-state_key : text_eq (otp_key s) (state_key t) ≡ false
  unfolding otp_key state_key text_eq
  otp_key-ne-state_key = refl

  pub cooldown-ne-state_key : text_eq (otp_cooldown_key s) (state_key t) ≡ false
  unfolding otp_cooldown_key state_key text_eq
  cooldown-ne-state_key = refl

  pub daily-ne-state_key : text_eq (otp_daily_key s) (state_key t) ≡ false
  unfolding otp_daily_key state_key text_eq
  daily-ne-state_key = refl

  pub attempts-ne-state_key : text_eq (otp_attempts_key s) (state_key t) ≡ false
  unfolding otp_attempts_key state_key text_eq
  attempts-ne-state_key = refl

  pub verified-ne-state_key : text_eq (otp_verified_key s) (state_key t) ≡ false
  unfolding otp_verified_key state_key text_eq
  verified-ne-state_key = refl

  pub state_key-ne-cooldown : text_eq (state_key s) (otp_cooldown_key t) ≡ false
  unfolding otp_cooldown_key state_key text_eq
  state_key-ne-cooldown = refl

  pub state_key-ne-daily : text_eq (state_key s) (otp_daily_key t) ≡ false
  unfolding otp_daily_key state_key text_eq
  state_key-ne-daily = refl

  pub state_key-ne-verified : text_eq (state_key s) (otp_verified_key t) ≡ false
  unfolding otp_verified_key state_key text_eq
  state_key-ne-verified = refl
