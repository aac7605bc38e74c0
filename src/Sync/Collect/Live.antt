-- ===== src/Sync/Collect/Live.antt =====
-- The themes that are not deleted, after the hierarchy was listed.
use app_catalogo.Common.{
  String, ◌≡◌, ◌⊎◌, inl, inr, refl, ◌∙◌, true, Option, none, some, List, [], ◌∷◌, ◌++◌, str_eq,
  eq_iff, IsIn, Bool-cases, if◌then◌else◌,
}
use app_catalogo.Common.Go.{Result, ok, err, Error}
use app_catalogo.Common.Text.{is_empty}
use app_catalogo.Carta.Hierarchy
use app_catalogo.Carta.Hierarchy.{CartaTheme, ThemeRow}
use app_catalogo.Sync.Run.{RepositoryCall, upsert_theme, upsert_subtheme}
use app_catalogo.Sync.Themes.{themes_after, themes_after-append}
use app_catalogo.Sync.Collect.{
  Client, CartaSubtheme, asks, answer, and_slug, then_rest, persist_subthemes, after_subthemes,
  persist_theme,
}

-- The slugs of the themes that are not deleted.
abbrev pub live : List ThemeRow → List String
live [] = []
live (r ∷ rows) = if r.deleted then live rows else r.theme.slug ∷ live rows

live_later :
    (r : ThemeRow) (rows : List ThemeRow) (s : String)
    → IsIn s (live rows)
    → IsIn s (live (r ∷ rows))
live_later r rows s h = elim (Bool-cases r.deleted) [
  | inl gone ↦ rw gone h
  | inr here ↦ rw here (inr h)
]

live_upsert :
    (theme : CartaTheme) (rows : List ThemeRow)
    → IsIn theme.slug (live (Hierarchy.upsert_theme theme rows))
unfolding Hierarchy.upsert_theme
live_upsert theme [] = inl refl
live_upsert theme (r ∷ rows) = elim (Bool-cases (str_eq r.theme.slug theme.slug)) [
  | inl same ↦ rw same (inl refl)
  | inr other ↦
      rw other
        (live_later r (Hierarchy.upsert_theme theme rows) theme.slug (live_upsert theme rows))
]

-- An upsert deletes no theme.
upsert_keeps :
    (theme : CartaTheme) (rows : List ThemeRow) (s : String)
    → IsIn s (live rows)
    → IsIn s (live (Hierarchy.upsert_theme theme rows))
unfolding Hierarchy.upsert_theme
upsert_keeps theme [] s h = absurd h
upsert_keeps theme (r ∷ rows) s h = elim (Bool-cases (str_eq r.theme.slug theme.slug)) [
  | inl same ↦ rw same (elim (Bool-cases r.deleted) [
    | inl gone ↦ inr (rw gone at h)
    | inr here ↦
        let split : (s ≡ r.theme.slug) ⊎ IsIn s (live rows) = rw here at h in
        elim split [
          | inl e ↦ inl (e ∙ (eq_iff r.theme.slug theme.slug).0 same)
          | inr later ↦ inr later
        ]
  ])
  | inr other ↦ rw other (elim (Bool-cases r.deleted) [
    | inl gone ↦ rw gone (upsert_keeps theme rows s (rw gone at h))
    | inr here ↦
        let split : (s ≡ r.theme.slug) ⊎ IsIn s (live rows) = rw here at h in
        elim split [
          | inl e ↦ rw here (inl e)
          | inr later ↦ rw here (inr (upsert_keeps theme rows s later))
        ]
  ])
]

-- Calls that delete no theme.
abbrev pub Spares : List RepositoryCall → Type 0
Spares calls =
    (rows : List ThemeRow) (s : String)
    → IsIn s (live rows)
    → IsIn s (live (themes_after calls rows))

pub append-Spares :
    (calls more : List RepositoryCall) → Spares calls → Spares more → Spares (calls ++ more)
append-Spares calls more h k rows s live_before =
    rw (themes_after-append calls more rows) (k (themes_after calls rows) s (h rows s live_before))

then_rest-Spares :
    (what : String) (call : List RepositoryCall) (e : Option Error)
    (rest : List RepositoryCall × Result Error (List String))
    → Spares call
    → Spares rest.0
    → Spares (then_rest what call e rest).0
unfolding then_rest
then_rest-Spares what call (some e) rest h k = h
then_rest-Spares what call none (calls, slugs) h k = append-Spares call calls h k

then_rest-live :
    (what : String) (call : List RepositoryCall) (e : Option Error)
    (rest : List RepositoryCall × Result Error (List String)) (s : String) (rows : List ThemeRow)
    → Spares rest.0
    → IsIn s (live (themes_after call rows))
    → IsIn s (live (themes_after (then_rest what call e rest).0 rows))
unfolding then_rest
then_rest-live what call (some e) rest s rows h k = k
then_rest-live what call none (calls, slugs) s rows h k =
    rw (themes_after-append call calls rows) (h (themes_after call rows) s k)

module _ (c : Client) where
  theme_call-Spares :
      (t : CartaTheme)
      → Spares (asks c (upsert_theme t.slug t.name t.subthemes_count t.published_services))
  theme_call-Spares t rows s h = elim (Bool-cases c.hierarchy) [
    | inl on ↦ rw on (upsert_keeps t rows s h)
    | inr off ↦ rw off h
  ]

  subtheme_call-Spares :
      (theme : String) (x : CartaSubtheme)
      → Spares (asks c (upsert_subtheme x.slug theme x.name x.published_services))
  subtheme_call-Spares theme x rows s h = elim (Bool-cases c.hierarchy) [
    | inl on ↦ rw on h
    | inr off ↦ rw off h
  ]

  persist_subthemes-Spares :
      (theme : String) (subthemes : List CartaSubtheme)
      → Spares (persist_subthemes c theme subthemes).0
  unfolding persist_subthemes
  persist_subthemes-Spares theme [] = λ rows s h. h
  persist_subthemes-Spares theme (x ∷ subthemes) =
      let rest = persist_subthemes c theme subthemes in
      let spared = persist_subthemes-Spares theme subthemes in
      elim (Bool-cases (is_empty x.slug)) [
        | inl blank ↦ rw blank spared
        | inr text ↦ rw text (
            then_rest-Spares "upsert subtema"
              (asks c (upsert_subtheme x.slug theme x.name x.published_services))
              (answer c (c.subtheme_error theme x)) (rest.0, and_slug x.slug rest.1)
              (subtheme_call-Spares theme x) spared)
      ]

  after_subthemes-Spares :
      (theme : String) (r : Result Error (List CartaSubtheme))
      → Spares (after_subthemes c theme r).0
  unfolding after_subthemes
  after_subthemes-Spares theme (err e) = λ rows s h. h
  after_subthemes-Spares theme (ok subthemes) = persist_subthemes-Spares theme subthemes

  pub persist_theme-Spares : (t : CartaTheme) → Spares (persist_theme c t).0
  unfolding persist_theme
  persist_theme-Spares t =
      then_rest-Spares "upsert tema"
        (asks c (upsert_theme t.slug t.name t.subthemes_count t.published_services))
        (answer c (c.theme_error t)) (after_subthemes c t.slug (c.subthemes t.slug))
        (theme_call-Spares t) (after_subthemes-Spares t.slug (c.subthemes t.slug))

  theme_call-live :
      (t : CartaTheme) (rows : List ThemeRow)
      → c.hierarchy ≡ true
      → IsIn t.slug (
          live (
            themes_after
              (asks c (upsert_theme t.slug t.name t.subthemes_count t.published_services))
              rows))
  theme_call-live t rows on = rw on (live_upsert t rows)

  -- A theme that its goroutine wrote is not deleted.
  pub persist_theme-live :
      (t : CartaTheme) (rows : List ThemeRow)
      → c.hierarchy ≡ true
      → IsIn t.slug (live (themes_after (persist_theme c t).0 rows))
  unfolding persist_theme
  persist_theme-live t rows on =
      then_rest-live "upsert tema"
        (asks c (upsert_theme t.slug t.name t.subthemes_count t.published_services))
        (answer c (c.theme_error t)) (after_subthemes c t.slug (c.subthemes t.slug)) t.slug rows
        (after_subthemes-Spares t.slug (c.subthemes t.slug)) (theme_call-live t rows on)
