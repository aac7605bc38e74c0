-- ===== src/Sync/Collect/Added.antt =====
-- What one listing of services adds to those that were listed before.
use app_catalogo.Common.{
  String, ◌≡◌, ◌↔◌, ◌⊎◌, inl, inr, refl, sym, ap, ◌∙◌, Bool, true, false, ◌||◌, or_elim, List, [],
  ◌∷◌, ◌++◌, any, str_eq, eq_iff, arith, IsIn, IsIn-last, is_last, last_sound, Bool-cases,
  if◌then◌else◌,
}
use mathlib.Core.Path.{subst}
use app_catalogo.Common.Text.{is_empty}
use app_catalogo.Sync.Listing.{CartaServiceListItem}
use app_catalogo.Sync.Collect.{add_services}

abbrev has_slug : String → CartaServiceListItem → Bool
has_slug slug i = str_eq slug i.slug

-- One item of the list has the slug.
abbrev pub Slugged : String → List CartaServiceListItem → Type 0
Slugged slug items = (i : CartaServiceListItem) × IsIn i items × (i.slug ≡ slug)

-- The items have slugs, of which no two are equal.
abbrev pub HasKeys : List CartaServiceListItem → Type 0
HasKeys [] = Unit
HasKeys (i ∷ items) =
    (is_empty i.slug ≡ false) × (any (has_slug i.slug) items ≡ false) × HasKeys items

any_last :
    (p : CartaServiceListItem → Bool) (items : List CartaServiceListItem) (i : CartaServiceListItem)
    → any p items ≡ false
    → p i ≡ false
    → any p (items ++ i ∷ []) ≡ false
any_last p [] i h k = ground arith
any_last p (x ∷ items) i h k = ground (arith, any_last p items i)

last-HasKeys :
    (items : List CartaServiceListItem) (i : CartaServiceListItem)
    → is_empty i.slug ≡ false
    → any (has_slug i.slug) items ≡ false
    → HasKeys items
    → HasKeys (items ++ i ∷ [])
last-HasKeys [] i text new h = (text, refl, tt)
last-HasKeys (x ∷ items) i text new (some_text, apart, h) =
    let other : str_eq x.slug i.slug ≡ false =
      ground (arith, eq_iff x.slug i.slug, eq_iff i.slug x.slug) in
    let rest : any (has_slug i.slug) items ≡ false = ground arith in
    (some_text, any_last (has_slug x.slug) items i apart other, last-HasKeys items i text rest h)

-- One item of a listing.
abbrev add_service : CartaServiceListItem → List CartaServiceListItem → List CartaServiceListItem
add_service i all =
    if is_empty i.slug || any (λ (j : CartaServiceListItem). str_eq i.slug j.slug) all
    then all
    else all ++ i ∷ []

pub or_elim_none : (a b : Bool) → (a || b) ≡ false → (a ≡ false) × (b ≡ false)
or_elim_none a b h = ground arith

add-HasKeys :
    (i : CartaServiceListItem) (all : List CartaServiceListItem)
    → HasKeys all
    → HasKeys (add_service i all)
add-HasKeys i all h = elim (Bool-cases (is_empty i.slug || any (has_slug i.slug) all)) [
  | inl skipped ↦ rw skipped h
  | inr added ↦
      let (text, new) = or_elim_none (is_empty i.slug) (any (has_slug i.slug) all) added in
      rw added (last-HasKeys all i text new h)
]

new-Slugged :
    (i : CartaServiceListItem) (all : List CartaServiceListItem)
    → is_empty i.slug ≡ false
    → Slugged i.slug (add_service i all)
new-Slugged i all text = elim (Bool-cases (any (has_slug i.slug) all)) [
  | inr new ↦ rw (text, new) (i, is_last i all, refl)
  | inl known ↦ rw (text, known) (known_slugged i.slug all known)
]
  where
    known_slugged :
        (slug : String) (items : List CartaServiceListItem)
        → any (has_slug slug) items ≡ true
        → Slugged slug items
    known_slugged slug [] h = absurd (cc h)
    known_slugged slug (x ∷ items) h =
        elim (or_elim (str_eq slug x.slug) (any (has_slug slug) items) h) [
          | inl here ↦ (x, inl refl, sym ((eq_iff slug x.slug).0 here))
          | inr later ↦ let (i, there, e) = known_slugged slug items later in (i, inr there, e)
        ]

old-Slugged :
    (i : CartaServiceListItem) (all : List CartaServiceListItem) (s : String)
    → Slugged s all
    → Slugged s (add_service i all)
old-Slugged i all s (j, there, e) =
    elim (Bool-cases (is_empty i.slug || any (has_slug i.slug) all)) [
      | inl skipped ↦ rw skipped (j, there, e)
      | inr added ↦ rw added (j, IsIn-last j i all there, e)
    ]

add_service_sound :
    (i : CartaServiceListItem) (all : List CartaServiceListItem) (s : String)
    → Slugged s (add_service i all)
    → ((i.slug ≡ s) × (is_empty i.slug ≡ false)) ⊎ Slugged s all
add_service_sound i all s h = elim (Bool-cases (is_empty i.slug || any (has_slug i.slug) all)) [
  | inl skipped ↦ inr (rw skipped at h)
  | inr added ↦
      let (j, there, e) : Slugged s (all ++ i ∷ []) = rw added at h in
      elim (last_sound j i all there) [
        | inl own ↦ inl (
          ap (λ (x : CartaServiceListItem). x.slug) (sym own) ∙ e,
          (or_elim_none (is_empty i.slug) (any (has_slug i.slug) all) added).0,
        )
        | inr before ↦ inr (j, before, e)
      ]
]

-- A service with this slug, that is not empty.
abbrev pub Offers : String → List CartaServiceListItem → Type 0
Offers s items = Slugged s items × (is_empty s ≡ false)

pub all-HasKeys :
    (items all : List CartaServiceListItem) → HasKeys all → HasKeys (add_services items all)
unfolding add_services
all-HasKeys [] all h = h
all-HasKeys (i ∷ items) all h = all-HasKeys items (add_service i all) (add-HasKeys i all h)

pub add_services_iff :
    (items all : List CartaServiceListItem) (s : String)
    → Slugged s (add_services items all) ↔ (Offers s items ⊎ Slugged s all)
unfolding add_services
add_services_iff [] all s =
    ((λ h. inr h), λ h. elim h [ inl ((i, there, e), text) ↦ absurd there | inr before ↦ before ])
add_services_iff (i ∷ items) all s =
    let rest = add_services_iff items (add_service i all) s in
    (
      (λ h. elim (rest.0 h) [
        | inl ((j, there, e), text) ↦ inl ((j, inr there, e), text)
        | inr added ↦ elim (add_service_sound i all s added) [
          | inl (e, text) ↦ inl ((i, inl refl, e), subst (λ x. is_empty x ≡ false) e text)
          | inr before ↦ inr before
        ]
      ]),
      λ h. rest.1 (elim h [
        | inr before ↦ inr (old-Slugged i all s before)
        | inl ((j, inr later, e), text) ↦ inl ((j, later, e), text)
        | inl ((j, inl here, e), text) ↦
            let same : i.slug ≡ s = ap (λ (x : CartaServiceListItem). x.slug) (sym here) ∙ e in
            inr (
              subst (λ x. Slugged x (add_service i all)) same
                (new-Slugged i all (subst (λ x. is_empty x ≡ false) (sym same) text)))
      ]),
    )
