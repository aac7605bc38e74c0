-- ===== src/Access/Tests.antt =====
-- The guards, the CPF and the cache of keys on concrete requests.
use app_catalogo.Common.{ℕ, ◌≡◌, ◌↔◌, refl, false, some, [], ◌∷◌}
use app_catalogo.Common.Go.{ok}
use app_catalogo.Common.Text.{trim_space, trim_prefix, strip_prefix, is_space}
use app_catalogo.Access.Claims.{Claims}
use app_catalogo.Common.Maps.{lookup}
use app_catalogo.Access.Cpf.{normalize_cpf, drop_separators, accept_cpf, byte_count, all_digits}
use app_catalogo.Access.Verifier.{
  Verifier, Jwt, key, verify, token_of, is_limited, is_within, parse_token, authorize,
}
use app_catalogo.Access.Verifier.Sound.{Accepted, verify-Accepted}
use app_catalogo.Access.Context.{no_user, TokenVerifier, extract_user_context, require_admin, next}
use app_catalogo.Access.Context.Identity.{Verified}
use app_catalogo.Access.Context.Admin.{IsAdministrator, require_admin_iff}

cpf_read : normalize_cpf "123.456.789-09" ≡ some "12345678909"
unfolding normalize_cpf accept_cpf byte_count all_digits drop_separators trim_space is_space
cpf_read = refl

abbrev claims : Claims
claims = record {
  subject = "u1";
  authorized_party = "superapp";
  preferred_username = "123.456.789-09";
  name = "Ana";
  email = "ana@rio";
  resource_access = ("superapp", "go:admin" ∷ []) ∷ [];
}

abbrev verifying : TokenVerifier
verifying raw = ok (some claims)

require_admin_iff_example :
    (require_admin (extract_user_context (some verifying) "t" no_user) ≡ next)
    ↔ ((c : Claims) × Verified (some verifying) "t" c × IsAdministrator c)
require_admin_iff_example = require_admin_iff (some verifying) "t"

-- Keys are numbers here; the cache was filled at the instant 0.
abbrev verifier : Verifier ℕ
verifier = record {
  issuer = "realm";
  jwks_url = "jwks";
  authorized_parties = "superapp" ∷ [];
  refresh_ttl = 600;
  min_refresh = 60;
  keys = ("k1", 7) ∷ [];
  fetched_at = some 0;
  last_try = some 0;
}

not_limited : is_limited verifier 700 ≡ false
unfolding is_limited
not_limited = refl

first_key : lookup "k1" verifier.keys ≡ some 7
unfolding lookup
first_key = refl

abbrev jwt : Jwt ℕ
jwt = record { header_kid = λ token. ok "k1"; check = λ k issuer at token. ok claims }

accepted : (verify jwt 100 100 (ok []) "Bearer abc" verifier).0 ≡ ok claims
unfolding verify token_of trim_prefix strip_prefix trim_space is_space parse_token key lookup
    is_within authorize
accepted = refl

verify-Accepted_example :
    Accepted jwt 100
      (token_of "Bearer abc")
      verifier
      (verify jwt 100 100 (ok []) "Bearer abc" verifier).1
      claims
verify-Accepted_example = verify-Accepted jwt 100 100 (ok []) "Bearer abc" verifier claims accepted
