-- ===== src/Access/Context/Admin.antt =====
-- Which requests the guard of the administrators lets through.
use mathlib.Core.Path.{subst}
use app_catalogo.Common.{
  String, ◌≡◌, ◌↔◌, refl, sym, ap, ◌∙◌, Bool, true, false, Option, none, some, List, [], ◌∷◌, any,
  eq_iff, arith, ◌⊎◌, inl, inr, Option-cases, if◌then◌else◌, or_elim, or_intro,
}
use app_catalogo.Access.Claims.{Claims}
use app_catalogo.Common.Maps.{lookup}
use app_catalogo.Access.Context.{
  UserContext, no_user, TokenVerifier, is_admin_role, set_roles, set_claims, extract_user_context,
  next, abort, require_admin,
}
use app_catalogo.Access.Context.Identity.{
  Verified, claims_of, claims_sound, claims_complete, extract_none, extract_some,
}

-- One of the roles is an administrator's.
abbrev pub SomeAdmin : List String → Type 0
SomeAdmin [] = ⊥
SomeAdmin (r ∷ roles) = ((r ≡ "go:admin") ⊎ (r ≡ "admin")) ⊎ SomeAdmin roles

abbrev pub IsAdministrator : Claims → Type 0
IsAdministrator c =
    (roles : List String) × (lookup "superapp" c.resource_access ≡ some roles) × SomeAdmin roles

role_sound : (r : String) → is_admin_role r ≡ true → (r ≡ "go:admin") ⊎ (r ≡ "admin")
unfolding is_admin_role
role_sound r h = ground (arith, eq_iff r "go:admin", eq_iff r "admin")

role_complete : (r : String) → (r ≡ "go:admin") ⊎ (r ≡ "admin") → is_admin_role r ≡ true
unfolding is_admin_role
role_complete r (inl e) = rw e refl
role_complete r (inr e) = rw e refl

roles_sound : (roles : List String) → any is_admin_role roles ≡ true → SomeAdmin roles
roles_sound [] h = cc
roles_sound (r ∷ roles) h = elim (or_elim (is_admin_role r) (any is_admin_role roles) h) [
  | inl here ↦ inl (role_sound r here)
  | inr later ↦ inr (roles_sound roles later)
]

roles_complete : (roles : List String) → SomeAdmin roles → any is_admin_role roles ≡ true
roles_complete [] h = absurd h
roles_complete (r ∷ roles) (inl h) =
    or_intro (is_admin_role r) (any is_admin_role roles) (inl (role_complete r h))
roles_complete (r ∷ roles) (inr h) =
    or_intro (is_admin_role r) (any is_admin_role roles) (inr (roles_complete roles h))

admin_guard :
    (b : Bool) (u : UserContext)
    → u.user_verified ≡ some true
    → u.user_role ≡ some (if b then "ADMIN" else "USER")
    → require_admin u ≡ (if b then next else abort 403)
unfolding require_admin
admin_guard true u v r = rw (v, r) refl
admin_guard false u v r = rw (v, r) refl

next_true : (b : Bool) → (if b then next else abort 403) ≡ next → b ≡ true
next_true true h = refl
next_true false h = cc

admin_of_roles :
    (o : Option (List String)) (u : UserContext)
    → u.user_verified ≡ some true
    → (require_admin (set_roles o u) ≡ next)
      ↔ ((roles : List String) × (o ≡ some roles) × SomeAdmin roles)
unfolding set_roles
admin_of_roles none u v =
    let refused = admin_guard false (record u { user_role = some "USER" }) v refl in
    (λ h. absurd (cc (refused, h)), λ h. cc h.1)
admin_of_roles (some roles) u v =
    let b = any is_admin_role roles in
    let guard = admin_guard b (set_roles (some roles) u) v refl in
    (
      λ h. (roles, refl, roles_sound roles (next_true b (sym guard ∙ h))),
      λ (rs, e, h).
          let same : rs ≡ roles = cc in
          guard
          ∙ ap (λ (x : Bool). if x then next else abort 403)
              (subst (λ l. any is_admin_role l ≡ true) same (roles_complete rs h)),
    )

refused_admin : ¬ (require_admin no_user ≡ next)
unfolding require_admin
refused_admin e = absurd (cc e)

-- A request passes the guard of the administrators exactly where its header was verified and the
-- roles of its claims for the client superapp include go:admin or admin.
pub require_admin_iff :
    (verifier : Option TokenVerifier) (header : String)
    → (require_admin (extract_user_context verifier header no_user) ≡ next)
      ↔ ((c : Claims) × Verified verifier header c × IsAdministrator c)
unfolding set_claims
require_admin_iff verifier header = (
  λ h. elim (Option-cases (claims_of verifier header)) [
    | inl none_read ↦
        absurd (refused_admin (ap require_admin (sym (extract_none verifier header none_read)) ∙ h))
    | inr (c, read) ↦ (
      c,
      claims_sound verifier header c read,
      (admin_of_roles (lookup "superapp" c.resource_access) _ refl).0
          (ap require_admin (sym (extract_some verifier header c read)) ∙ h),
    )
  ],
  λ (c, verified, admin).
      ap require_admin (extract_some verifier header c (claims_complete verifier header c verified))
      ∙ (admin_of_roles (lookup "superapp" c.resource_access) _ refl).1 admin,
)
