-- ===== src/Sync/Collect/Services.antt =====
-- The services that the listing of the hierarchy gives.
use app_catalogo.Common.{
  String, ◌≡◌, ◌↔◌, ◌⊎◌, inl, inr, refl, sym, ap, ◌∙◌, false, Option, none, List, [], ◌∷◌, IsIn,
  Option-cases,
}
use mathlib.Core.Path.{subst}
use app_catalogo.Common.Go.{Result, ok, err, Error, wrap}
use app_catalogo.Common.Text.{is_empty}
use app_catalogo.Sync.Listing.{CartaServiceListItem}
use app_catalogo.Sync.Collect.{
  Client, Kept, add_services, visit_subtheme, visit_subthemes, list_services,
}
use app_catalogo.Sync.Collect.Keeps.{or_first_some}
use app_catalogo.Sync.Collect.Added.{Slugged, HasKeys, all-HasKeys, add_services_iff}

-- Some subtheme of the list has a service with the slug.
abbrev pub Lists : Client → List String → String → Type 0
Lists c subthemes s =
    (subtheme : String) × (items : List CartaServiceListItem) × IsIn subtheme subthemes
    × (c.services subtheme ≡ ok items)
    × Slugged s items
    × (is_empty s ≡ false)

visit_subthemes-HasKeys :
    (c : Client) (subthemes : List String) (l : List CartaServiceListItem × Option Error)
    → HasKeys l.0
    → HasKeys (visit_subthemes c subthemes l).0
unfolding visit_subthemes
visit_subthemes-HasKeys c [] l h = h
visit_subthemes-HasKeys c (x ∷ subthemes) l h =
    visit_subthemes-HasKeys c subthemes (visit_subtheme (c.services x) l)
      (visit-HasKeys (c.services x) l h)
  where
    visit-HasKeys :
        (r : Result Error (List CartaServiceListItem))
        (l : List CartaServiceListItem × Option Error)
        → HasKeys l.0
        → HasKeys (visit_subtheme r l).0
    visit-HasKeys (err e) (all, first) h = h
    visit-HasKeys (ok items) (all, first) h = all-HasKeys items all h

visit_subtheme_well :
    (r : Result Error (List CartaServiceListItem)) (l : List CartaServiceListItem × Option Error)
    → (visit_subtheme r l).1 ≡ none
    → (l.1 ≡ none)
      × (items : List CartaServiceListItem) × (r ≡ ok items)
      × ((visit_subtheme r l).0 ≡ add_services items l.0)
unfolding visit_subtheme
visit_subtheme_well (err e) (all, first) h =
    absurd (or_first_some first (wrap "listar serviços" e) h)
visit_subtheme_well (ok items) (all, first) h = (h, items, refl, refl)

ok_same :
    (a b : List CartaServiceListItem)
    → ◌≡◌ {A = Result Error (List CartaServiceListItem)} (ok a) (ok b)
    → a ≡ b
ok_same a b h = cc h

visit_subthemes_iff :
    (c : Client) (subthemes : List String) (l : List CartaServiceListItem × Option Error)
    (s : String)
    → (visit_subthemes c subthemes l).1 ≡ none
    → (l.1 ≡ none)
      × (Slugged s (visit_subthemes c subthemes l).0 ↔ (Lists c subthemes s ⊎ Slugged s l.0))
unfolding visit_subthemes
visit_subthemes_iff c [] l s well = (
  well,
  (
    (λ h. inr h),
    λ h. elim h [
      | inl (x, items, there, answer, slugged, text) ↦ absurd there
      | inr before ↦ before
    ],
  ),
)
visit_subthemes_iff c (x ∷ subthemes) l s well =
    let (well_after, later) =
      visit_subthemes_iff c subthemes (visit_subtheme (c.services x) l) s well in
    let (before, items, answer, added) = visit_subtheme_well (c.services x) l well_after in
    let own = add_services_iff items l.0 s in
    (
      before,
      (
        (λ h. elim (later.0 h) [
          | inl (y, found, there, answer_y, slugged, text) ↦
              inl (y, found, inr there, answer_y, slugged, text)
          | inr in_own ↦ elim (own.0 (subst (Slugged s) added in_own)) [
            | inl (slugged, text) ↦ inl (x, items, inl refl, answer, slugged, text)
            | inr old ↦ inr old
          ]
        ]),
        λ h. later.1 (elim h [
          | inr old ↦ inr (subst (Slugged s) (sym added) (own.1 (inr old)))
          | inl (y, found, inr there, answer_y, slugged, text) ↦
              inl (y, found, there, answer_y, slugged, text)
          | inl (y, found, inl here, answer_y, slugged, text) ↦
              let is_found : found ≡ items =
                ok_same found items (sym answer_y ∙ ap c.services here ∙ answer) in
              inr (
                subst (Slugged s) (sym added)
                  (own.1 (inl (subst (Slugged s) is_found slugged, text))))
        ]),
      ),
    )

-- Where the listing of the services ends without an error, each service of it has a slug, no two
-- have the same one, and a slug is among them just when it is not empty and the client lists a
-- service with it under a subtheme that was kept, whatever the order of the goroutines.
pub list_services_iff :
    (c : Client) (k : Kept)
    → (list_services c k).1 ≡ none
    → HasKeys (list_services c k).0
      × ((s : String) → Slugged s (list_services c k).0 ↔ Lists c (c.subtheme_order k.subthemes) s)
unfolding list_services
list_services_iff c k well = elim (Option-cases k.error) [
  | inr (e, failed) ↦ absurd (cc (rw (failed, list_services) at well))
  | inl no_error ↦
      let slugs = c.subtheme_order k.subthemes in
      rw (no_error, list_services)
        (
          visit_subthemes-HasKeys c slugs ([], none) tt,
          λ s.
              let (before, iff) =
                visit_subthemes_iff c slugs ([], none) s (rw (no_error, list_services) at well) in
              (
                (λ h. elim (iff.0 h) [ inl lists ↦ lists | inr (i, there, e) ↦ absurd there ]),
                λ lists. iff.1 (inl lists),
              ),
        )
]
