-- ===== src/Access/Verifier.antt =====
-- internal/api/middleware/jwt_verifier.go: the verifier of tokens and its cache of public keys. The
-- JWT library and the request for the key set are parameters; the clock's readings are arguments,
-- in nanoseconds. refreshMu makes a refresh atomic.
pub mod Cache
pub mod Sound
use Prim.Native.String
use app_catalogo.Common.{
  ℕ, ◌+◌, String, Bool, true, false, not, ◌&&◌, ◌||◌, Option, none, some, List, [], ◌∷◌, any,
  str_eq, ltb, leb, ◌==◌, length, if◌then◌else◌,
}
use app_catalogo.Common.Go.{Result, ok, err, Error, message}
use app_catalogo.Common.Int.{ℤ, pos, ◌-ℤ◌, ltb_ℤ}
use app_catalogo.Common.Text.{is_empty, trim_space, trim_prefix}
use app_catalogo.Access.Claims.{Claims}
use app_catalogo.Common.Maps.{lookup}

abbrev pub default_refresh_ttl : ℕ
default_refresh_ttl = 600000000000

abbrev pub default_min_refresh : ℕ
default_min_refresh = 60000000000

pub record Verifier {ℓ} (Key : Type ℓ) : Type ℓ where
  pub issuer : String
  pub jwks_url : String
  pub authorized_parties : List String
  pub refresh_ttl : ℕ
  pub min_refresh : ℕ
  pub keys : List (String × Key)
  -- `none` is the zero time
  pub fetched_at : Option ℕ
  pub last_try : Option ℕ

-- The JWT library: the `kid` of a token in an allowed method, and the claims of a token whose
-- signature, issuer, exp and iat a key confirms at an instant.
pub record Jwt {ℓ} (Key : Type ℓ) : Type ℓ where
  pub header_kid : String → Result Error String
  pub check : Key → String → ℕ → String → Result Error Claims

unfoldable pub parties_of : List String → List String
parties_of [] = []
parties_of (p ∷ ps) =
    let rest = parties_of ps in if is_empty (trim_space p) then rest else trim_space p ∷ rest

-- !at.IsZero() && now.Sub(at) < span
unfoldable pub is_within : Option ℕ → ℕ → ℕ → Bool
is_within none span now = false
is_within (some at) span now = ltb_ℤ (pos now -ℤ pos at) (pos span)

-- fetchedAt.IsZero() || !fetchedAt.Equal(lastTry)
unfoldable pub last_failed : Option ℕ → Option ℕ → Bool
last_failed none last_try = true
last_failed (some f) none = true
last_failed (some f) (some t) = not (f == t)

-- What the request for the key set returns, if it is made.
abbrev pub Fetched {ℓ} : Type ℓ → Type ℓ
Fetched Key = Result Error (List (String × Key))

unfoldable pub token_of : String → String
token_of raw = trim_space (trim_prefix (trim_space raw) "Bearer ")

module _ {ℓ} {Key : Type ℓ} where
  -- `NewJWKSVerifier`
  unfoldable pub new_jwks_verifier : String → String → List String → Result Error (Verifier Key)
  unfolding parties_of
  new_jwks_verifier issuer jwks_url authorized_parties =
      let parties = parties_of authorized_parties in
      if is_empty (trim_space issuer) || (is_empty (trim_space jwks_url) || leb (length parties) 0)
      then err (message "verificação de JWT não configurada")
      else ok (record {
        issuer = trim_space issuer;
        jwks_url = trim_space jwks_url;
        authorized_parties = parties;
        refresh_ttl = default_refresh_ttl;
        min_refresh = default_min_refresh;
        keys = [];
        fetched_at = none;
        last_try = none;
      })

  unfoldable pub store_keys : ℕ → Fetched Key → Verifier Key → Option Error × Verifier Key
  store_keys now (err e) v = (some e, record v { last_try = some now })
  store_keys now (ok keys) v =
      (none, record v { last_try = some now; keys = keys; fetched_at = some now })

  -- The test that leaves a refresh to an earlier try.
  unfoldable pub is_limited : Verifier Key → ℕ → Bool
  unfolding is_within
  is_limited v now = is_within v.last_try v.min_refresh now

  -- `refresh`: its error, if any.
  unfoldable pub refresh : ℕ → Fetched Key → Verifier Key → Option Error × Verifier Key
  unfolding last_failed
  refresh now fetched v =
      if is_limited v now
      then (
        (if last_failed v.fetched_at v.last_try
            then some (message "JWKS indisponível (aguardando nova tentativa)")
            else none),
        v,
      )
      else store_keys now fetched v

  abbrev pub or_error : Option Key → Error → Result Error Key
  or_error none e = err e
  or_error (some k) e = ok k

  unfoldable pub refreshed_key :
      String → Option Key → Option Error × Verifier Key → Result Error Key × Verifier Key
  refreshed_key kid old (some e, v) = (or_error old e, v)
  refreshed_key kid old (none, v) =
      (or_error (lookup kid v.keys) (message "chave do JWT não encontrada no JWKS"), v)

  abbrev pub is_fresh_key : Option Key → Bool → Bool
  is_fresh_key none fresh = false
  is_fresh_key (some k) fresh = fresh

  -- `key`, with the clock's readings of the test and of the refresh.
  unfoldable pub key : ℕ → ℕ → Fetched Key → String → Verifier Key → Result Error Key × Verifier Key
  unfolding is_within
  key now refreshed_at fetched kid v =
      let old = lookup kid v.keys in
      if is_empty kid
      then (err (message "JWT sem kid"), v)
      else if is_fresh_key old (is_within v.fetched_at v.refresh_ttl now)
      then (or_error old (message ""), v)
      else refreshed_key kid old (refresh refreshed_at fetched v)

  -- The conditions that follow the JWT library's.
  unfoldable pub authorize : Verifier Key → Result Error Claims → Result Error Claims
  authorize v (err e) = err e
  authorize v (ok c) =
      if any (str_eq c.authorized_party) v.authorized_parties
      then ok c
      else err (message "azp do JWT não está entre os clients autorizados")

  unfoldable pub check_token :
      Jwt Key → ℕ → String → Verifier Key → Result Error Key → Result Error Claims
  unfolding authorize
  check_token jwt now token v (err e) = err e
  check_token jwt now token v (ok k) = authorize v (jwt.check k v.issuer now token)

  -- `ParseWithClaims`, whose key function is `key`, and the test of azp.
  unfoldable pub parse_token :
      Jwt Key
      → ℕ
      → ℕ
      → Fetched Key
      → String
      → Verifier Key
      → Result Error String
      → Result Error Claims × Verifier Key
  unfolding key check_token
  parse_token jwt now refreshed_at fetched token v (err e) = (err e, v)
  parse_token jwt now refreshed_at fetched token v (ok kid) =
      let (k, after) = key now refreshed_at fetched kid v in
      (check_token jwt refreshed_at token after k, after)

  -- `Verify`, with the clock's readings of the cache's test and of what follows it.
  unfoldable pub verify :
      Jwt Key → ℕ → ℕ → Fetched Key → String → Verifier Key → Result Error Claims × Verifier Key
  unfolding parse_token
  verify jwt now refreshed_at fetched raw v =
      if is_empty (token_of raw)
      then (err (message "token vazio"), v)
      else parse_token jwt now refreshed_at fetched (token_of raw) v (jwt.header_kid (token_of raw))
