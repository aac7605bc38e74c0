-- ===== src/Sync/Listing.antt =====
-- Which listed services need their detail, and which of them the catalog keeps.
use app_catalogo.Common.{
  ℕ, String, ◌≡◌, sym, ap, ◌∙◌, Bool, true, false, Option, none, some, List, [], ◌∷◌, keep_if, ltb,
  IsIn, Bool-cases, inl, inr, if◌then◌else◌,
}
use app_catalogo.Common.Text.{is_empty, trim_space}
use app_catalogo.Common.Maps.{lookup}

-- What the synchronisation reads of a listed service: its slug and `EffectiveModifiedAt`, where
-- `none` is the zero time.
pub record CartaServiceListItem : Type 0 where
  pub slug : String
  pub modified_at : Option ℕ

abbrev pub needs_detail : Option ℕ → ℕ → Bool
needs_detail none since = true
needs_detail (some modified) since = ltb since modified

-- `none` is the zero time, of a full synchronisation.
unfoldable pub filter_services_needing_detail :
    List CartaServiceListItem → Option ℕ → List CartaServiceListItem
filter_services_needing_detail listed none = listed
filter_services_needing_detail listed (some since) =
    keep_if (λ (i : CartaServiceListItem). needs_detail i.modified_at since) listed

abbrev text_of : Option String → String
text_of none = ""
text_of (some s) = trim_space s

-- The slug of a listed service, or the one that it was redirected to.
unfoldable pub canonical_slug : List (String × String) → String → String
canonical_slug redirects slug =
    if is_empty (text_of (lookup slug redirects)) then slug else text_of (lookup slug redirects)

unfoldable pub resolve_seen_slugs : List CartaServiceListItem → List (String × String) → List String
unfolding canonical_slug
resolve_seen_slugs [] redirects = []
resolve_seen_slugs (i ∷ listed) redirects =
    let rest = resolve_seen_slugs listed redirects in
    if is_empty i.slug then rest else canonical_slug redirects i.slug ∷ rest

-- Every listed service with a slug is among those that are kept, under its canonical slug.
pub listed_is_seen :
    (listed : List CartaServiceListItem) (redirects : List (String × String))
    (i : CartaServiceListItem)
    → is_empty i.slug ≡ false
    → IsIn i listed
    → IsIn (canonical_slug redirects i.slug) (resolve_seen_slugs listed redirects)
unfolding resolve_seen_slugs
listed_is_seen [] redirects i some_slug h = absurd h
listed_is_seen (j ∷ listed) redirects i some_slug (inl e) =
    let same : is_empty j.slug ≡ false =
      ap (λ (x : CartaServiceListItem). is_empty x.slug) (sym e) ∙ some_slug in
    rw same (inl (ap (λ (x : CartaServiceListItem). canonical_slug redirects x.slug) e))
listed_is_seen (j ∷ listed) redirects i some_slug (inr later) =
    let rest = listed_is_seen listed redirects i some_slug later in
    elim (Bool-cases (is_empty j.slug)) [
      | inl empty ↦ rw empty rest
      | inr text ↦ rw text (inr rest)
    ]
