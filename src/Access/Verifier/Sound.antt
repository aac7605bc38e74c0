-- ===== src/Access/Verifier/Sound.antt =====
-- What it takes for a token to be accepted.
use mathlib.Core.Path.{subst}
use app_catalogo.Common.{
  ℕ, String, ◌≡◌, ◌≢◌, refl, sym, ap, ◌∙◌, Bool, true, false, Option, none, some, any, any_sound,
  str_eq, arith, IsIn, Bool-cases, inl, inr, if◌then◌else◌,
}
use app_catalogo.Common.Go.{Result, ok, err, Error, message}
use app_catalogo.Common.Text.{is_empty}
use app_catalogo.Access.Claims.{Claims}
use app_catalogo.Common.Maps.{lookup}
use app_catalogo.Access.Verifier.{
  Verifier, Jwt, Fetched, is_within, refresh, store_keys, key, refreshed_key, verify, parse_token,
  check_token, authorize, token_of, is_fresh_key, or_error,
}

module _ {ℓ} {Key : Type ℓ} where
  store_keeps :
      (now : ℕ) (fetched : Fetched Key) (v : Verifier Key)
      → ((refresh now fetched v).1.issuer ≡ v.issuer)
        × ((refresh now fetched v).1.authorized_parties ≡ v.authorized_parties)
  unfolding refresh store_keys
  store_keeps now (ok keys) v = ground arith
  store_keeps now (err e) v = ground arith

  refreshed_sound :
      (now : ℕ) (fetched : Fetched Key) (kid : String) (v : Verifier Key) (k : Key)
      → (refreshed_key kid (lookup kid v.keys) (refresh now fetched v)).0 ≡ ok k
      → lookup kid (refreshed_key kid (lookup kid v.keys) (refresh now fetched v)).1.keys ≡ some k
  unfolding refresh store_keys refreshed_key
  refreshed_sound now (ok keys) kid v k h = ground arith
  refreshed_sound now (err e) kid v k h = ground arith

  -- A fresh key of the cache, and else what the refresh brings.
  cached_sound :
      (now at : ℕ) (fetched : Fetched Key) (kid : String) (v : Verifier Key) (k : Key)
      (fresh : Bool) (old : Option Key)
      → lookup kid v.keys ≡ old
      → (if is_fresh_key old fresh
          then (or_error old (message ""), v)
          else refreshed_key kid old (refresh at fetched v)).0
        ≡ ok k
      → lookup kid
          (if is_fresh_key old fresh
            then (or_error old (message ""), v)
            else refreshed_key kid old (refresh at fetched v)).1.keys
        ≡ some k
  cached_sound now at fetched kid v k true (some x) e h = ground arith
  cached_sound now at fetched kid v k false (some x) e h =
      subst (λ o. lookup kid (refreshed_key kid o (refresh at fetched v)).1.keys ≡ some k) e
        (refreshed_sound at fetched kid v k
          (subst (λ o. (refreshed_key kid o (refresh at fetched v)).0 ≡ ok k) (sym e) h))
  cached_sound now at fetched kid v k fresh none e h =
      subst (λ o. lookup kid (refreshed_key kid o (refresh at fetched v)).1.keys ≡ some k) e
        (refreshed_sound at fetched kid v k
          (subst (λ o. (refreshed_key kid o (refresh at fetched v)).0 ≡ ok k) (sym e) h))

  key_sound :
      (now at : ℕ) (fetched : Fetched Key) (kid : String) (v : Verifier Key) (k : Key)
      → (key now at fetched kid v).0 ≡ ok k
      → (kid ≢ "") × (lookup kid (key now at fetched kid v).1.keys ≡ some k)
  unfolding key
  key_sound now at fetched String.[] v k h = absurd (cc h)
  key_sound now at fetched (String.◌∷◌ x kid) v k h = (
    λ e. cc,
    cached_sound now at fetched (String.◌∷◌ x kid) v k (is_within v.fetched_at v.refresh_ttl now)
        (lookup (String.◌∷◌ x kid) v.keys) refl h,
  )

  authorize_sound :
      (v : Verifier Key) (r : Result Error Claims) (c : Claims)
      → authorize v r ≡ ok c
      → (r ≡ ok c) × IsIn c.authorized_party v.authorized_parties
  unfolding authorize
  authorize_sound v (err e) c h = cc
  authorize_sound v (ok d) c h =
      elim (Bool-cases (any (str_eq d.authorized_party) v.authorized_parties)) [
        | inl yes_in ↦
            let same : d ≡ c = ground arith in
            (
              ap ok same,
              any_sound c.authorized_party v.authorized_parties (
                  ap (λ (x : Claims). any (str_eq x.authorized_party) v.authorized_parties)
                    (sym same)
                  ∙ yes_in),
            )
        | inr not_in ↦ absurd (ground arith)
      ]

  key_keeps :
      (now at : ℕ) (fetched : Fetched Key) (kid : String) (v : Verifier Key)
      → ((key now at fetched kid v).1.issuer ≡ v.issuer)
        × ((key now at fetched kid v).1.authorized_parties ≡ v.authorized_parties)
  unfolding key refreshed_key refresh store_keys
  key_keeps now at (ok keys) kid v = ground arith
  key_keeps now at (err e) kid v = ground arith

  check_sound :
      (jwt : Jwt Key) (now : ℕ) (token : String) (v : Verifier Key) (r : Result Error Key)
      (c : Claims)
      → check_token jwt now token v r ≡ ok c
      → (k : Key) × (r ≡ ok k)
        × (jwt.check k v.issuer now token ≡ ok c)
        × IsIn c.authorized_party v.authorized_parties
  unfolding check_token
  check_sound jwt now token v (err e) c h = absurd (cc h)
  check_sound jwt now token v (ok k) c h =
      let (checked, party) = authorize_sound v (jwt.check k v.issuer now token) c h in
      (k, refl, checked, party)

  -- What stands behind the claims of an accepted token.
  abbrev pub Accepted : Jwt Key → ℕ → String → Verifier Key → Verifier Key → Claims → Type ℓ
  Accepted jwt at token v after c =
      (kid : String) × (k : Key) × (jwt.header_kid token ≡ ok kid)
      × (kid ≢ "")
      × (lookup kid after.keys ≡ some k)
      × (jwt.check k v.issuer at token ≡ ok c)
      × IsIn c.authorized_party v.authorized_parties

  parse_sound :
      (jwt : Jwt Key) (now at : ℕ) (fetched : Fetched Key) (token : String) (v : Verifier Key)
      (r : Result Error String) (c : Claims)
      → jwt.header_kid token ≡ r
      → (parse_token jwt now at fetched token v r).0 ≡ ok c
      → Accepted jwt at token v (parse_token jwt now at fetched token v r).1 c
  unfolding parse_token
  parse_sound jwt now at fetched token v (err e) c head h = absurd (cc h)
  parse_sound jwt now at fetched token v (ok kid) c head h =
      let after = (key now at fetched kid v).1 in
      let (issuer, parties) = key_keeps now at fetched kid v in
      let (k, found, checked, party) =
        check_sound jwt at token after (key now at fetched kid v).0 c h in
      let (some_kid, known) = key_sound now at fetched kid v k found in
      (
        kid,
        k,
        head,
        some_kid,
        known,
        subst (λ i. jwt.check k i at token ≡ ok c) issuer checked,
        subst (IsIn c.authorized_party) parties party,
      )

  -- A token is accepted only if its kid names a key of the cache, the JWT library confirms its
  -- signature, its issuer and its times with that key, and its azp is one of the authorised clients;
  -- the claims are those that the library read.
  pub verify-Accepted :
      (jwt : Jwt Key) (now at : ℕ) (fetched : Fetched Key) (raw : String) (v : Verifier Key)
      (c : Claims)
      → (verify jwt now at fetched raw v).0 ≡ ok c
      → Accepted jwt at (token_of raw) v (verify jwt now at fetched raw v).1 c
  unfolding verify
  verify-Accepted jwt now at fetched raw v c h = elim (Bool-cases (is_empty (token_of raw))) [
    | inl none_given ↦ absurd (ground arith)
    | inr given ↦ rw given (
        parse_sound jwt now at fetched (token_of raw) v (jwt.header_kid (token_of raw)) c refl
          (ground arith))
  ]
