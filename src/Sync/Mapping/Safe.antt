-- ===== src/Sync/Mapping/Safe.antt =====
-- What every item that the mapping makes has.
use mathlib.Core.Path.{subst}
use app_catalogo.Common.{
  String, ◌≡◌, refl, sym, ap, ◌∙◌, ◌⊎◌, inl, inr, Bool, true, false, not, ◌&&◌, ◌||◌, none, some,
  List, [], ◌∷◌, arith, Bool-cases, Option-cases, and_elim,
}
use app_catalogo.Common.Text.{is_empty, trim_space}
use app_catalogo.Sync.Mapping.{
  CartaButton, CartaServiceDetail, CatalogItem, Libraries, is_http, is_allowed_carta_url,
  button_url, own_url, build_carta_service_url, map_carta_service_detail,
}

-- url.Parse reads the text, and its scheme is http or https.
abbrev pub IsWeb : Libraries → String → Type 0
IsWeb l url = is_http (l.url_scheme url) ≡ true

allowed-IsWeb :
    (l : Libraries) (raw : String) → is_allowed_carta_url l raw ≡ true → IsWeb l (trim_space raw)
unfolding is_allowed_carta_url
allowed-IsWeb l raw h = elim (Bool-cases (is_empty (trim_space raw))) [
  | inl empty ↦ absurd (ground arith)
  | inr text ↦ ground arith
]

button_url-IsWeb :
    (l : Libraries) (only_enabled : Bool) (buttons : List CartaButton) (url : String)
    → button_url l only_enabled buttons ≡ some url
    → IsWeb l url
unfolding button_url
button_url-IsWeb l only_enabled [] url h = cc
button_url-IsWeb l only_enabled (b ∷ buttons) url h =
    let shown = not only_enabled || b.enabled in
    elim (Bool-cases (shown && is_allowed_carta_url l b.url)) [
      | inl taken ↦
          let (is_shown, allowed) = and_elim shown (is_allowed_carta_url l b.url) taken in
          let same : some (trim_space b.url) ≡ some url = rw taken at h in
          subst (λ o. IsWeb l (elim o [ none ↦ "" | some s ↦ s ])) same
            (allowed-IsWeb l b.url allowed)
      | inr skipped ↦ button_url-IsWeb l only_enabled buttons url (rw skipped at h)
    ]

service_url_cases :
    (l : Libraries) (d : CartaServiceDetail) (base : String)
    → (build_carta_service_url l d base ≡ own_url d.slug base)
      ⊎ IsWeb l (build_carta_service_url l d base)
unfolding build_carta_service_url
service_url_cases l d base = elim (Option-cases (button_url l true d.buttons)) [
  | inr (url, found) ↦
      inr (rw (found, build_carta_service_url) (button_url-IsWeb l true d.buttons url found))
  | inl missing ↦ elim (Option-cases (button_url l false d.buttons)) [
    | inr (url, found) ↦ inr (
        rw (missing, build_carta_service_url, found) (button_url-IsWeb l false d.buttons url found))
    | inl nowhere ↦ inl (rw (missing, build_carta_service_url, nowhere) refl)
  ]
]

-- An item that the mapping makes is identified by the service's slug, which is not empty, has a
-- title, and links to the catalog's own page of the service or to an address that url.Parse reads
-- with the scheme http or https: no other scheme gets from a button into the catalog.
pub mapped_item_safe :
    (l : Libraries) (base : String) (d : CartaServiceDetail) (item : CatalogItem)
    → map_carta_service_detail l base d ≡ some item
    → (item.external_id ≡ d.slug)
      × (is_empty item.external_id ≡ false)
      × (is_empty item.title ≡ false)
      × ((item.url ≡ own_url d.slug base) ⊎ IsWeb l item.url)
unfolding map_carta_service_detail
mapped_item_safe l base d item h = elim (Bool-cases (is_empty d.slug || is_empty d.name)) [
  | inl unnamed ↦ absurd (ground arith)
  | inr named ↦
      let id : d.slug ≡ item.external_id = ground arith in
      let title : d.name ≡ item.title = ground arith in
      let url : build_carta_service_url l d base ≡ item.url = ground arith in
      (
        sym id,
        ap is_empty (sym id) ∙ ground arith,
        ap is_empty (sym title) ∙ ground arith,
        elim (service_url_cases l d base) [
          | inl own ↦ inl (sym url ∙ own)
          | inr web ↦ inr (subst (IsWeb l) url web)
        ],
      )
]
