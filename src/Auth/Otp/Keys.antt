-- ===== src/Auth/Otp/Keys.antt =====
-- The keys of the code flow, told apart.
use dvarpala.Base.{◌≡◌, refl, false, Text, text_eq}
use dvarpala.Auth.Otp.{otp_key, otp_cooldown_key, otp_daily_key, otp_attempts_key}

module _ (s t : Text) where
  pub otp_key-ne-attempts : text_eq (otp_key s) (otp_attempts_key t) ≡ false
  unfolding otp_key otp_attempts_key text_eq
  otp_key-ne-attempts = refl

  pub attempts-ne-otp_key : text_eq (otp_attempts_key s) (otp_key t) ≡ false
  unfolding otp_key otp_attempts_key text_eq
  attempts-ne-otp_key = refl

  pub daily-ne-otp_key : text_eq (otp_daily_key s) (otp_key t) ≡ false
  unfolding otp_key otp_daily_key text_eq
  daily-ne-otp_key = refl

  pub cooldown-ne-otp_key : text_eq (otp_cooldown_key s) (otp_key t) ≡ false
  unfolding otp_key otp_cooldown_key text_eq
  cooldown-ne-otp_key = refl

  pub daily-ne-cooldown : text_eq (otp_daily_key s) (otp_cooldown_key t) ≡ false
  unfolding otp_daily_key otp_cooldown_key text_eq
  daily-ne-cooldown = refl

  pub attempts-ne-cooldown : text_eq (otp_attempts_key s) (otp_cooldown_key t) ≡ false
  unfolding otp_attempts_key otp_cooldown_key text_eq
  attempts-ne-cooldown = refl
