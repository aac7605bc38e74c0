-- ===== src/Sync/Collect/Complete.antt =====
-- The table of themes after a listing of the hierarchy, whole or cut short.
use app_catalogo.Common.{
  String, ◌≡◌, ◌≢◌, ◌↔◌, inl, inr, refl, sym, Bool, true, false, none, List, [], ◌∷◌, append-nil,
  map, any, str_eq, arith, IsIn, Option-cases, if◌then◌else◌,
}
use mathlib.Core.Path.{subst}
use app_catalogo.Common.Go.{Result, ok, err, Error}
use app_catalogo.Common.Text.{is_empty}
use app_catalogo.Carta.Hierarchy
use app_catalogo.Carta.Hierarchy.{CartaTheme, ThemeRow}
use app_catalogo.Sync.Run.{RepositoryCall}
use app_catalogo.Sync.Themes.{themes_after}
use app_catalogo.Sync.Collect.{
  Client, Kept, no_kept, persist_theme, keep_theme, visit_theme, visit_themes, sweep_hierarchy,
  list_services, after_themes, list_and_persist_hierarchy,
}
use app_catalogo.Sync.Collect.Live.{live}
use app_catalogo.Sync.Collect.Keeps.{all-Spares, all_well, or_first_some}

sweep : List String → List ThemeRow → List ThemeRow
sweep keep rows =
    map
      (λ (r : ThemeRow). if any (str_eq r.theme.slug) keep then r else record r { deleted = true })
      rows

module _ (c : Client) (themes : List CartaTheme) (rows : List ThemeRow) (s : String)
    (on : c.hierarchy ≡ true)
    (same : (t : CartaTheme) → IsIn t (c.theme_order themes) ↔ IsIn t themes) where
  abbrev walked : Kept
  walked = visit_themes c (c.theme_order themes) no_kept

failed_keep :
    (slug : String) (r : List RepositoryCall × Result Error (List String)) (k : Kept) (e : Error)
    → r.1 ≡ err e
    → (keep_theme slug r k).error ≢ none
unfolding keep_theme
failed_keep slug (calls, err f) k e failed h = absurd (or_first_some k.error f h)
failed_keep slug (calls, ok slugs) k e failed h = absurd (cc failed)

failed_visit :
    (c : Client) (t : CartaTheme) (k : Kept) (e : Error)
    → is_empty t.slug ≡ false
    → (persist_theme c t).1 ≡ err e
    → (visit_theme c t k).error ≢ none
unfolding visit_theme
failed_visit c t k e text failed h =
    absurd (failed_keep t.slug (persist_theme c t) k e failed (rw text at h))

failed_walk :
    (c : Client) (themes : List CartaTheme) (k : Kept) (t : CartaTheme) (e : Error)
    → IsIn t themes
    → is_empty t.slug ≡ false
    → (persist_theme c t).1 ≡ err e
    → (visit_themes c themes k).error ≢ none
unfolding visit_themes
failed_walk c [] k t e there text failed h = absurd there
failed_walk c (x ∷ themes) k t e (inl here) text failed h =
    let own : (visit_theme c t k).error ≡ none =
      subst (λ y. (visit_theme c y k).error ≡ none) (sym here)
        (all_well c themes (visit_theme c x k) h).0 in
    failed_visit c t k e text failed own
failed_walk c (x ∷ themes) k t e (inr later) text failed h =
    failed_walk c themes (visit_theme c x k) t e later text failed h

failed_lists_none :
    (c : Client) (is_full : Bool) (k : Kept)
    → k.error ≢ none
    → (sweep_hierarchy c is_full k ≡ [])
      × ((list_services c k).0 ≡ [])
      × ((list_services c k).1 ≢ none)
unfolding sweep_hierarchy list_services
failed_lists_none c is_full k h = elim (Option-cases k.error) [
  | inl well ↦ absurd (h well)
  | inr (e, failed) ↦ (
    rw failed (ground arith),
    rw (failed, list_services) refl,
    λ none_failed. cc (rw (failed, list_services) at none_failed),
  )
]

-- Where a theme with a slug fails, in its upsert, in the listing of its subthemes or in the upsert
-- of one, the listing of the hierarchy gives an error and no services, and every theme of the table
-- that was not deleted is not deleted after it, in a full listing too.
pub failed_listing_deletes_none :
    (c : Client) (is_full : Bool) (themes : List CartaTheme) (t : CartaTheme) (e : Error)
    (rows : List ThemeRow) (s : String)
    → c.themes ≡ ok themes
    → IsIn t (c.theme_order themes)
    → is_empty t.slug ≡ false
    → (persist_theme c t).1 ≡ err e
    → ((list_and_persist_hierarchy c is_full).1.1 ≢ none)
      × ((list_and_persist_hierarchy c is_full).1.0 ≡ [])
      × (IsIn s (live rows)
          → IsIn s (live (themes_after (list_and_persist_hierarchy c is_full).0 rows)))
unfolding list_and_persist_hierarchy after_themes
failed_listing_deletes_none c is_full themes t e rows s listed there text failed =
    let k = visit_themes c (c.theme_order themes) no_kept in
    let bad = failed_walk c (c.theme_order themes) no_kept t e there text failed in
    let (no_sweep, no_services, has_error) = failed_lists_none c is_full k bad in
    rw (listed, after_themes, no_sweep, append-nil k.calls)
      (has_error, no_services, all-Spares c (c.theme_order themes) no_kept (λ r x h. h) rows s)
