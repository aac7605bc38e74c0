-- ===== src/Access/Verifier/Cache.antt =====
-- The cache of public keys: how often the key set is asked for, and what an outage leaves usable.
use mathlib.Core.Path.{subst}
use app_catalogo.Common.{
  ℕ, suc, ◌+◌, ◌<◌, String, ◌≡◌, ◌≢◌, refl, sym, ap, true, false, some, List, [], ◌∷◌, arith, All,
  Bool-cases, inl, inr, if◌then◌else◌,
}
use app_catalogo.Common.Go.{ok, err, Error}
use app_catalogo.Common.Maps.{lookup}
use app_catalogo.Access.Verifier.{
  Verifier, Fetched, is_within, is_limited, refresh, store_keys, key, refreshed_key,
}

-- A refresh that is needed: the instant, and what a request for the key set would return.
abbrev pub Need {ℓ} : Type ℓ → Type ℓ
Need Key = ℕ × Fetched Key

module _ {ℓ} {Key : Type ℓ} where
  -- How many requests for the key set a row of refreshes makes.
  unfoldable pub fetches : List (Need Key) → Verifier Key → ℕ
  fetches [] v = 0
  fetches ((now, fetched) ∷ needs) v =
      let rest = fetches needs (refresh now fetched v).1 in
      if is_limited v now then rest else suc rest

  limited_refresh :
      (now : ℕ) (fetched : Fetched Key) (v : Verifier Key)
      → is_limited v now ≡ true
      → (refresh now fetched v).1 ≡ v
  unfolding refresh
  limited_refresh now fetched v h = rw h refl

  tried_refresh :
      (now : ℕ) (fetched : Fetched Key) (v : Verifier Key)
      → is_limited v now ≡ false
      → ((refresh now fetched v).1.last_try ≡ some now)
        × ((refresh now fetched v).1.min_refresh ≡ v.min_refresh)
  unfolding refresh store_keys
  tried_refresh now (ok keys) v h = rw h (refl, refl)
  tried_refresh now (err e) v h = rw h (refl, refl)

  limited_after :
      (at now : ℕ) (v : Verifier Key)
      → v.last_try ≡ some at
      → now < at + v.min_refresh
      → is_limited v now ≡ true
  unfolding is_limited
  limited_after at now v e h = ground arith

  none_after :
      (at : ℕ) (needs : List (Need Key)) (v : Verifier Key)
      → v.last_try ≡ some at
      → All (λ need. need.0 < at + v.min_refresh) needs
      → fetches needs v ≡ 0
  unfolding fetches
  none_after at [] v e h = refl
  none_after at ((now, fetched) ∷ needs) v e (early, h) =
      let limited = limited_after at now v e early in
      rw (limited, limited_refresh now fetched v limited) (none_after at needs v e h)

  -- However many refreshes are needed, whatever the requests return, at most one request for the key
  -- set is made in the span minRefresh that starts with the first of them.
  pub one_fetch :
      (at : ℕ) (fetched : Fetched Key) (needs : List (Need Key)) (v : Verifier Key)
      → is_limited v at ≡ false
      → All (λ need. need.0 < at + v.min_refresh) needs
      → fetches ((at, fetched) ∷ needs) v ≡ 1
  unfolding fetches
  one_fetch at fetched needs v first h =
      let (tried, kept) = tried_refresh at fetched v first in
      rw first (
        ap suc (
          none_after at needs (refresh at fetched v).1 tried
            (subst (λ m. All (λ (need : Need Key). need.0 < at + m) needs) (sym kept) h)))

  key_of_refresh :
      (kid : String) (k : Key) (v : Verifier Key) (now : ℕ) (e : Error)
      → lookup kid v.keys ≡ some k
      → (refreshed_key kid (some k) (refresh now (err e) v)).0 ≡ ok k
  unfolding refresh store_keys refreshed_key
  key_of_refresh kid k v now e known = ground arith

  -- A key of the cache stays usable while the key set cannot be read, however old the cache is.
  pub known_key_survives :
      (kid : String) (k : Key) (v : Verifier Key) (now at : ℕ) (e : Error)
      → kid ≢ ""
      → lookup kid v.keys ≡ some k
      → (key now at (err e) kid v).0 ≡ ok k
  unfolding key
  known_key_survives String.[] k v now at e some_kid known = absurd (some_kid refl)
  known_key_survives (String.◌∷◌ c kid) k v now at e some_kid known =
      elim (Bool-cases (is_within v.fetched_at v.refresh_ttl now)) [
        | inl fresh ↦ rw (known, fresh) refl
        | inr stale ↦ rw (known, stale) (key_of_refresh (String.◌∷◌ c kid) k v at e known)
      ]
