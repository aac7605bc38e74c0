-- ===== src/Access/Context/Auth.antt =====
-- Which requests the guard of the citizens lets through.
use app_catalogo.Common.{
  String, ◌≡◌, ◌↔◌, refl, sym, ap, ◌∙◌, Bool, true, false, Option, none, some, List, arith, inl,
  inr, not, ◌&&◌, Option-cases, if◌then◌else◌,
}
use app_catalogo.Common.Text.{is_empty}
use app_catalogo.Access.Claims.{Claims}
use app_catalogo.Common.Maps.{lookup}
use app_catalogo.Access.Cpf.{normalize_cpf, normalize_cpf_iff, no_cpf}
use app_catalogo.Access.Context.{
  UserContext, no_user, TokenVerifier, set_roles, set_cpf, set_claims, extract_user_context,
  get_user_cpf, has_verified_token, next, abort, require_auth,
}
use app_catalogo.Access.Context.Identity.{
  Verified, claims_of, claims_sound, claims_complete, extract_none, extract_some,
}

cpf_given :
    (preferred cpf : String)
    → normalize_cpf preferred ≡ some cpf
    → (is_empty preferred ≡ false) × (is_empty cpf ≡ false)
cpf_given String.[] cpf h = absurd (cc (no_cpf, h))
cpf_given (String.◌∷◌ x preferred) String.[] h =
    absurd (omega (arith, ((normalize_cpf_iff (String.◌∷◌ x preferred) String.[]).0 h).1.0))
cpf_given (String.◌∷◌ x preferred) (String.◌∷◌ y cpf) h = (refl, refl)

roles_keep :
    (o : Option (List String)) (u : UserContext)
    → ((set_roles o u).user_verified ≡ u.user_verified) × ((set_roles o u).user_cpf ≡ u.user_cpf)
unfolding set_roles
roles_keep none u = (refl, refl)
roles_keep (some roles) u = (refl, refl)

set_cpf-none : (o : Option String) → set_cpf o none ≡ o
set_cpf-none none = refl
set_cpf-none (some cpf) = refl

cpf_or_none :
    (preferred : String)
    → (if is_empty preferred then none else set_cpf (normalize_cpf preferred) none)
      ≡ normalize_cpf preferred
cpf_or_none String.[] = sym no_cpf
cpf_or_none (String.◌∷◌ x preferred) = set_cpf-none (normalize_cpf (String.◌∷◌ x preferred))

claims_keep :
    (c : Claims)
    → ((set_claims c no_user).user_verified ≡ some true)
      × ((set_claims c no_user).user_cpf ≡ normalize_cpf c.preferred_username)
unfolding set_claims
claims_keep c = (
  (roles_keep (lookup "superapp" c.resource_access) _).0,
  (roles_keep (lookup "superapp" c.resource_access) _).1 ∙ cpf_or_none c.preferred_username,
)

cpf_unset : (u : UserContext) → u.user_cpf ≡ none → get_user_cpf u ≡ ""
unfolding get_user_cpf
cpf_unset u e = rw e refl

refused_anyway : (b : Bool) → (if b && false then next else abort 401) ≡ abort 401
refused_anyway true = refl
refused_anyway false = refl

auth_refused : (u : UserContext) → u.user_cpf ≡ none → require_auth u ≡ abort 401
unfolding require_auth
auth_refused u e =
    ap (λ s. if has_verified_token u && not (is_empty s) then next else abort 401) (cpf_unset u e)
    ∙ refused_anyway (has_verified_token u)

auth_admitted :
    (u : UserContext) (cpf : String)
    → u.user_verified ≡ some true
    → u.user_cpf ≡ some cpf
    → is_empty cpf ≡ false
    → require_auth u ≡ next
unfolding require_auth
auth_admitted u cpf v e h = ground arith

auth_of_claims :
    (c : Claims)
    → (require_auth (set_claims c no_user) ≡ next)
      ↔ ((cpf : String) × (normalize_cpf c.preferred_username ≡ some cpf))
auth_of_claims c =
    let (verified, kept) = claims_keep c in
    (
      λ h. elim (Option-cases (normalize_cpf c.preferred_username)) [
        | inl none_read ↦ absurd (cc (auth_refused (set_claims c no_user) (kept ∙ none_read), h))
        | inr found ↦ found
      ],
      λ (cpf, e).
          auth_admitted (set_claims c no_user) cpf verified (kept ∙ e)
            (cpf_given c.preferred_username cpf e).1,
    )

-- A request passes the guard of the citizens exactly where its header was verified and the user
-- name of its claims is a CPF.
pub require_auth_iff :
    (verifier : Option TokenVerifier) (header : String)
    → (require_auth (extract_user_context verifier header no_user) ≡ next) ↔ (
        (c : Claims) × Verified verifier header c
        × (cpf : String) × (normalize_cpf c.preferred_username ≡ some cpf))
require_auth_iff verifier header = (
  λ h. elim (Option-cases (claims_of verifier header)) [
    | inl none_read ↦ absurd (
        cc (
          auth_refused no_user refl,
          ap require_auth (sym (extract_none verifier header none_read)) ∙ h,
        ))
    | inr (c, read) ↦
        let (cpf, e) =
          (auth_of_claims c).0 (ap require_auth (sym (extract_some verifier header c read)) ∙ h) in
        (c, claims_sound verifier header c read, cpf, e)
  ],
  λ (c, verified, cpf, e).
      ap require_auth (extract_some verifier header c (claims_complete verifier header c verified))
      ∙ (auth_of_claims c).1 (cpf, e),
)
