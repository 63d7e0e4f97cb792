-- ===== src/Tests/Providers.antt =====
-- internal/auth/google.go at a concrete account.
use dvarpala.Base.{◌≡◌, refl, true, codes, [], some, trim_space, to_lower}
use dvarpala.Platform.{ok, ◌>>=◌}
use dvarpala.Auth.Login.{UserInfo}
use dvarpala.Auth.Providers.{
  GoogleProvider, GoogleApi, google_exchange, exchange_code, fetch_user_info,
}
use dvarpala.Auth.Providers.Proved.{IsProved, google_exchange-IsProved}
use dvarpala.Tests.Local.{local, start}

abbrev pub google : GoogleProvider
google = record {
  client_id = codes "id";
  client_secret = codes "secret";
  redirect_url = codes "https://vpn.example.com/auth/google/callback";
  hosted_domain = [];
}

-- An account with a verified address.
abbrev pub api : GoogleApi
api = record {
  token = λ form. some (record { access_token = codes "tok"; error = [] });
  user_info = λ t. some (record {
    status = 200;
    body =
        some (record { email = codes "Sam@Acme.com"; verified_email = true; name = codes "Sam" });
  });
}

abbrev sam_on_google : UserInfo
sam_on_google = record {
  email = codes "sam@acme.com";
  name = codes "Sam";
  provider = codes "google";
}

exchanged :
    google_exchange {env = local} api google (codes "4/0A") start ≡ (ok sam_on_google, start)
unfolding google_exchange exchange_code fetch_user_info ◌>>=◌ trim_space to_lower
exchanged = refl

google_exchange-IsProved_example : IsProved api google (codes "4/0A") sam_on_google
google_exchange-IsProved_example =
    google_exchange-IsProved start start api google (codes "4/0A") sam_on_google exchanged
