-- ===== src/Access/Context/Identity.antt =====
-- The claims that a request is identified by.
use app_catalogo.Common.{String, ◌≡◌, ◌≢◌, refl, ap, ◌∙◌, Option, none, some, if◌then◌else◌}
use app_catalogo.Common.Go.{Result, ok, err, Error}
use app_catalogo.Common.Text.{is_empty}
use app_catalogo.Access.Claims.{Claims}
use app_catalogo.Access.Context.{
  no_user, TokenVerifier, set_claims, set_verified, extract_user_context,
}

-- The header was verified, and these are its claims.
abbrev pub Verified : Option TokenVerifier → String → Claims → Type 0
Verified verifier header c =
    (header ≢ "")
    × (verify : TokenVerifier) × (verifier ≡ some verify)
    × (verify header ≡ ok (some c))

-- The claims that a request without an identity gets, if it gets any.
abbrev pub claims_of : Option TokenVerifier → String → Option Claims
claims_of none header = none
claims_of (some verify) header =
    if is_empty header then none else elim (verify header) [ err e ↦ none | ok c ↦ c ]

pub claims_sound :
    (verifier : Option TokenVerifier) (header : String) (c : Claims)
    → claims_of verifier header ≡ some c
    → Verified verifier header c
claims_sound none header c h = cc
claims_sound (some verify) String.[] c h = cc
claims_sound (some verify) (String.◌∷◌ x header) c h =
    (λ e. cc, verify, refl, read (verify (String.◌∷◌ x header)) refl h)
  where
    read :
        (r : Result Error (Option Claims))
        → verify (String.◌∷◌ x header) ≡ r
        → elim r [ err e ↦ none | ok d ↦ d ] ≡ some c
        → verify (String.◌∷◌ x header) ≡ ok (some c)
    read (err e) same k = cc
    read (ok d) same k = same ∙ ap ok k

pub claims_complete :
    (verifier : Option TokenVerifier) (header : String) (c : Claims)
    → Verified verifier header c
    → claims_of verifier header ≡ some c
claims_complete none header c (given, verify, e, h) = absurd (cc e)
claims_complete (some v) String.[] c h = absurd (h.0 refl)
claims_complete (some v) (String.◌∷◌ x header) c (given, verify, e, h) =
    let same : v ≡ verify = cc in
    let read : v (String.◌∷◌ x header) ≡ ok (some c) =
      ap (λ (f : TokenVerifier). f (String.◌∷◌ x header)) same ∙ h in
    rw read refl

pub extract_none :
    (verifier : Option TokenVerifier) (header : String)
    → claims_of verifier header ≡ none
    → extract_user_context verifier header no_user ≡ no_user
unfolding extract_user_context set_verified
extract_none none header h = refl
extract_none (some verify) String.[] h = refl
extract_none (some verify) (String.◌∷◌ x header) h = read (verify (String.◌∷◌ x header)) h
  where
    read :
        (r : Result Error (Option Claims))
        → elim r [ err e ↦ none | ok d ↦ d ] ≡ none
        → set_verified r no_user ≡ no_user
    read (err e) k = refl
    read (ok none) k = refl
    read (ok (some d)) k = cc

pub extract_some :
    (verifier : Option TokenVerifier) (header : String) (c : Claims)
    → claims_of verifier header ≡ some c
    → extract_user_context verifier header no_user ≡ set_claims c no_user
unfolding extract_user_context set_verified
extract_some none header c h = cc
extract_some (some verify) String.[] c h = cc
extract_some (some verify) (String.◌∷◌ x header) c h = read (verify (String.◌∷◌ x header)) h
  where
    read :
        (r : Result Error (Option Claims))
        → elim r [ err e ↦ none | ok d ↦ d ] ≡ some c
        → set_verified r no_user ≡ set_claims c no_user
    read (err e) k = cc
    read (ok none) k = cc
    read (ok (some d)) k = cc
