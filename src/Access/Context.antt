-- ===== src/Access/Context.antt =====
-- internal/api/middleware/user_context.go: the identity that a request gets, and the guards. The
-- values that gin keeps for a request are a record; a verifier is a function of the header.
pub mod Identity
pub mod Admin
pub mod Auth
use app_catalogo.Common.{
  String, Bool, true, false, not, ◌&&◌, ◌||◌, Option, none, some, List, any, str_eq, ℕ,
  if◌then◌else◌,
}
use app_catalogo.Common.Go.{Result, ok, err, Error}
use app_catalogo.Common.Text.{is_empty}
use app_catalogo.Access.Claims.{Claims}
use app_catalogo.Common.Maps.{lookup}
use app_catalogo.Access.Cpf.{normalize_cpf}

-- The keys of the request's context; `none` is a key that was not set.
pub record UserContext : Type 0 where
  pub user_verified : Option Bool
  pub user_cpf : Option String
  pub user_id : Option String
  pub user_name : Option String
  pub user_email : Option String
  pub user_roles : Option (List String)
  pub user_role : Option String

abbrev pub no_user : UserContext
no_user = record {
  user_verified = none;
  user_cpf = none;
  user_id = none;
  user_name = none;
  user_email = none;
  user_roles = none;
  user_role = none;
}

-- A TokenVerifier: the claims, which may be nil, or an error.
abbrev pub TokenVerifier : Type 0
TokenVerifier = String → Result Error (Option Claims)

abbrev set_if : String → Option String → Option String
set_if s old = if is_empty s then old else some s

abbrev pub set_cpf : Option String → Option String → Option String
set_cpf none old = old
set_cpf (some cpf) old = some cpf

unfoldable pub is_admin_role : String → Bool
is_admin_role r = str_eq r "go:admin" || str_eq r "admin"

unfoldable pub set_roles : Option (List String) → UserContext → UserContext
set_roles none u = record u { user_role = some "USER" }
set_roles (some roles) u = record u {
  user_roles = some roles;
  user_role = some (if any is_admin_role roles then "ADMIN" else "USER");
}

unfoldable pub set_claims : Claims → UserContext → UserContext
unfolding set_roles
set_claims c u = set_roles (lookup "superapp" c.resource_access) (record u {
  user_verified = some true;
  user_cpf =
      if is_empty c.preferred_username
      then u.user_cpf
      else set_cpf (normalize_cpf c.preferred_username) u.user_cpf;
  user_id = set_if c.subject u.user_id;
  user_name = set_if c.name u.user_name;
  user_email = set_if c.email u.user_email;
})

unfoldable pub set_verified : Result Error (Option Claims) → UserContext → UserContext
unfolding set_claims
set_verified (err e) u = u
set_verified (ok none) u = u
set_verified (ok (some c)) u = set_claims c u

-- `ExtractUserContext`
unfoldable pub extract_user_context : Option TokenVerifier → String → UserContext → UserContext
extract_user_context none header u = u
extract_user_context (some verify) header u =
    if is_empty header then u else set_verified (verify header) u

unfoldable pub get_user_cpf : UserContext → String
get_user_cpf u = elim u.user_cpf [ none ↦ "" | some s ↦ s ]

unfoldable pub has_verified_token : UserContext → Bool
has_verified_token u = elim u.user_verified [ none ↦ false | some b ↦ b ]

unfoldable pub is_authenticated : UserContext → Bool
unfolding has_verified_token get_user_cpf
is_authenticated u = has_verified_token u && not (is_empty (get_user_cpf u))

unfoldable pub is_admin : UserContext → Bool
unfolding has_verified_token
is_admin u =
    if has_verified_token u
    then elim u.user_role [ none ↦ false | some r ↦ str_eq r "ADMIN" ]
    else false

-- The handler goes on, or the request is aborted with a status.
pub data Guard : Type 0 where
  next : Guard
  abort : ℕ → Guard

unfoldable pub require_auth : UserContext → Guard
unfolding is_authenticated
require_auth u = if is_authenticated u then next else abort 401

unfoldable pub require_admin : UserContext → Guard
unfolding is_admin
require_admin u =
    if has_verified_token u then (if is_admin u then next else abort 403) else abort 401
