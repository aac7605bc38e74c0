-- ===== src/Sync/Collect/Keeps.antt =====
-- Which themes the listing of the hierarchy leaves in the table.
use app_catalogo.Common.{
  String, ◌≡◌, ◌≢◌, ◌⊎◌, inl, inr, refl, sym, ap, ◌∙◌, true, false, Option, none, some, List, [],
  ◌∷◌, any, any_sound, str_eq, IsIn, IsIn-last, is_last, last_sound, Bool-cases,
}
use mathlib.Core.Path.{subst}
use app_catalogo.Common.Go.{Result, ok, err, Error}
use app_catalogo.Common.Text.{is_empty}
use app_catalogo.Carta.Hierarchy.{CartaTheme, ThemeRow}
use app_catalogo.Sync.Run.{RepositoryCall}
use app_catalogo.Sync.Themes.{themes_after, themes_after-append}
use app_catalogo.Sync.Collect.{
  Client, Kept, add_new, or_first, persist_theme, keep_theme, visit_theme, visit_themes,
}
use app_catalogo.Sync.Collect.Live.{
  live, Spares, append-Spares, persist_theme-Spares, persist_theme-live,
}

new-IsIn : (s : String) (slugs : List String) → IsIn s (add_new s slugs)
new-IsIn s slugs = elim (Bool-cases (any (str_eq s) slugs)) [
  | inl known ↦ rw known (any_sound s slugs known)
  | inr new ↦ rw new (is_last s slugs)
]

old-IsIn : (s x : String) (slugs : List String) → IsIn s slugs → IsIn s (add_new x slugs)
old-IsIn s x slugs h = elim (Bool-cases (any (str_eq x) slugs)) [
  | inl known ↦ rw known h
  | inr new ↦ rw new (IsIn-last s x slugs h)
]

add_new_sound :
    (s x : String) (slugs : List String) → IsIn s (add_new x slugs) → (s ≡ x) ⊎ IsIn s slugs
add_new_sound s x slugs h = elim (Bool-cases (any (str_eq x) slugs)) [
  | inl known ↦ inr (rw known at h)
  | inr new ↦ last_sound s x slugs (rw new at h)
]

-- Each theme that is kept was written.
abbrev pub Tracks : Kept → Type 0
Tracks k =
    (rows : List ThemeRow) (s : String)
    → IsIn s k.themes
    → IsIn s (live (themes_after k.calls rows))

keep-Tracks :
    (slug : String) (r : List RepositoryCall × Result Error (List String)) (k : Kept)
    → ((rows : List ThemeRow) → IsIn slug (live (themes_after r.0 rows)))
    → Spares r.0
    → Tracks k
    → Tracks (keep_theme slug r k)
unfolding keep_theme
keep-Tracks slug (calls, err e) k written spares tracks rows s h =
    rw (themes_after-append k.calls calls rows)
      (spares (themes_after k.calls rows) s (tracks rows s h))
keep-Tracks slug (calls, ok slugs) k written spares tracks rows s h =
    rw (themes_after-append k.calls calls rows) (elim (add_new_sound s slug k.themes h) [
      | inl e ↦
          subst (λ x. IsIn x (live (themes_after calls (themes_after k.calls rows)))) (sym e)
            (written (themes_after k.calls rows))
      | inr before ↦ spares (themes_after k.calls rows) s (tracks rows s before)
    ])

keep-Spares :
    (slug : String) (r : List RepositoryCall × Result Error (List String)) (k : Kept)
    → Spares r.0
    → Spares k.calls
    → Spares (keep_theme slug r k).calls
unfolding keep_theme
keep-Spares slug (calls, err e) k spares before = append-Spares k.calls calls before spares
keep-Spares slug (calls, ok slugs) k spares before = append-Spares k.calls calls before spares

pub or_first_some : (o : Option Error) (e : Error) → or_first o e ≢ none
or_first_some none e h = cc
or_first_some (some first) e h = cc

-- A goroutine that ended well is kept, with those before.
keep_well :
    (slug : String) (r : List RepositoryCall × Result Error (List String)) (k : Kept)
    → (keep_theme slug r k).error ≡ none
    → (k.error ≡ none)
      × IsIn slug (keep_theme slug r k).themes
      × ((s : String) → IsIn s k.themes → IsIn s (keep_theme slug r k).themes)
unfolding keep_theme
keep_well slug (calls, err e) k h = absurd (or_first_some k.error e h)
keep_well slug (calls, ok slugs) k h =
    (h, new-IsIn slug k.themes, λ s there. old-IsIn s slug k.themes there)

keep_sound :
    (slug : String) (r : List RepositoryCall × Result Error (List String)) (k : Kept) (s : String)
    → IsIn s (keep_theme slug r k).themes
    → (s ≡ slug) ⊎ IsIn s k.themes
unfolding keep_theme
keep_sound slug (calls, err e) k s h = inr h
keep_sound slug (calls, ok slugs) k s h = add_new_sound s slug k.themes h

-- The theme has a slug, this one, and is among those.
abbrev pub Named : String → List CartaTheme → Type 0
Named s themes = (t : CartaTheme) × IsIn t themes × (t.slug ≡ s) × (is_empty t.slug ≡ false)

module _ (c : Client) where
  visit-Tracks :
      (t : CartaTheme) (k : Kept) → c.hierarchy ≡ true → Tracks k → Tracks (visit_theme c t k)
  unfolding visit_theme
  visit-Tracks t k on tracks = elim (Bool-cases (is_empty t.slug)) [
    | inl blank ↦ rw blank tracks
    | inr text ↦ rw text (
        keep-Tracks t.slug (persist_theme c t) k (λ rows. persist_theme-live c t rows on)
          (persist_theme-Spares c t) tracks)
  ]

  pub all-Tracks :
      (themes : List CartaTheme) (k : Kept)
      → c.hierarchy ≡ true
      → Tracks k
      → Tracks (visit_themes c themes k)
  unfolding visit_themes
  all-Tracks [] k on tracks = tracks
  all-Tracks (t ∷ themes) k on tracks =
      all-Tracks themes (visit_theme c t k) on (visit-Tracks t k on tracks)

  visit-Spares : (t : CartaTheme) (k : Kept) → Spares k.calls → Spares (visit_theme c t k).calls
  unfolding visit_theme
  visit-Spares t k spares = elim (Bool-cases (is_empty t.slug)) [
    | inl blank ↦ rw blank spares
    | inr text ↦
        rw text (keep-Spares t.slug (persist_theme c t) k (persist_theme-Spares c t) spares)
  ]

  pub all-Spares :
      (themes : List CartaTheme) (k : Kept)
      → Spares k.calls
      → Spares (visit_themes c themes k).calls
  unfolding visit_themes
  all-Spares [] k spares = spares
  all-Spares (t ∷ themes) k spares = all-Spares themes (visit_theme c t k) (visit-Spares t k spares)

  pub visit_well :
      (t : CartaTheme) (k : Kept)
      → (visit_theme c t k).error ≡ none
      → (k.error ≡ none)
        × (is_empty t.slug ≡ false → IsIn t.slug (visit_theme c t k).themes)
        × ((s : String) → IsIn s k.themes → IsIn s (visit_theme c t k).themes)
  unfolding visit_theme
  visit_well t k h = elim (Bool-cases (is_empty t.slug)) [
    | inl blank ↦ rw blank ((rw blank at h), (λ text. absurd (cc text)), λ s there. there)
    | inr text ↦
        let (before, own, rest) = keep_well t.slug (persist_theme c t) k (rw text at h) in
        rw text (before, (λ e. own), rest)
  ]

  pub all_well :
      (themes : List CartaTheme) (k : Kept)
      → (visit_themes c themes k).error ≡ none
      → (k.error ≡ none)
        × ((s : String) → Named s themes → IsIn s (visit_themes c themes k).themes)
        × ((s : String) → IsIn s k.themes → IsIn s (visit_themes c themes k).themes)
  unfolding visit_themes
  all_well [] k h = (h, (λ s (t, there, e, text). absurd there), λ s there. there)
  all_well (t ∷ themes) k h =
      let (well, named, kept) = all_well themes (visit_theme c t k) h in
      let (before, own, rest) = visit_well t k well in
      (
        before,
        (λ s (x, there, e, text). elim there [
          | inl here ↦
              let same : t.slug ≡ s = ap (λ (y : CartaTheme). y.slug) (sym here) ∙ e in
              kept s (
                subst (λ y. IsIn y (visit_theme c t k).themes) same
                  (own (ap (λ (y : CartaTheme). is_empty y.slug) (sym here) ∙ text)))
          | inr later ↦ named s (x, later, e, text)
        ]),
        λ s there. kept s (rest s there),
      )

  visit_sound :
      (t : CartaTheme) (k : Kept) (s : String)
      → IsIn s (visit_theme c t k).themes
      → ((t.slug ≡ s) × (is_empty t.slug ≡ false)) ⊎ IsIn s k.themes
  unfolding visit_theme
  visit_sound t k s h = elim (Bool-cases (is_empty t.slug)) [
    | inl blank ↦ inr (rw blank at h)
    | inr text ↦ elim (keep_sound t.slug (persist_theme c t) k s (rw text at h)) [
      | inl e ↦ inl (sym e, text)
      | inr before ↦ inr before
    ]
  ]

  pub all_sound :
      (themes : List CartaTheme) (k : Kept) (s : String)
      → IsIn s (visit_themes c themes k).themes
      → Named s themes ⊎ IsIn s k.themes
  unfolding visit_themes
  all_sound [] k s h = inr h
  all_sound (t ∷ themes) k s h = elim (all_sound themes (visit_theme c t k) s h) [
    | inl (x, there, e, text) ↦ inl (x, inr there, e, text)
    | inr before ↦ elim (visit_sound t k s before) [
      | inl (e, text) ↦ inl (t, inl refl, e, text)
      | inr kept ↦ inr kept
    ]
  ]
