-- ===== src/Carta/Hierarchy/Hidden.antt =====
-- A theme whose row was overwritten with no published services.
use app_catalogo.Common.{
  ◌≡◌, ◌≢◌, sym, ap, ◌∙◌, ◌⊎◌, inl, inr, false, List, [], ◌∷◌, drop, keep_if, any, str_eq, eq_iff,
  arith, IsIn, map_sound, keep_if_sound, take_sound, drop_sound, any_of_in, Bool-cases, ◌-◌, ◌*◌,
}
use app_catalogo.Common.Int.{ℤ, pos}
use app_catalogo.Carta.Pages.{select_page, clamp_carta_page}
use app_catalogo.Carta.Hierarchy.{CartaTheme, ThemeRow, upsert_theme, is_listed_theme, list_themes}

-- No two rows have one slug.
abbrev pub IsKeyed : List ThemeRow → Type 0
IsKeyed [] = Unit
IsKeyed (r ∷ rows) =
    (any (λ (x : ThemeRow). str_eq x.theme.slug r.theme.slug) rows ≡ false) × IsKeyed rows

upserted_only :
    (theme : CartaTheme) (rows : List ThemeRow) (r : ThemeRow)
    → IsKeyed rows
    → IsIn r (upsert_theme theme rows)
    → r.theme.slug ≡ theme.slug
    → r.theme ≡ theme
unfolding upsert_theme
upserted_only theme [] r keyed (inr later) e = absurd later
upserted_only theme [] r keyed (inl here) e = ap (λ (x : ThemeRow). x.theme) here
upserted_only theme (x ∷ rows) r (new, keyed) h e =
    elim (Bool-cases (str_eq x.theme.slug theme.slug)) [
      | inr other ↦
          let split : (r ≡ x) ⊎ IsIn r (upsert_theme theme rows) = rw other at h in
          elim split [
            | inl here ↦
                let is_own =
                  (eq_iff x.theme.slug theme.slug).1
                    (ap (λ (y : ThemeRow). y.theme.slug) (sym here) ∙ e) in
                absurd (cc (other, is_own))
            | inr later ↦ upserted_only theme rows r keyed later e
          ]
      | inl same ↦
          let split : (r ≡ record { theme = theme; deleted = false }) ⊎ IsIn r rows =
            rw same at h in
          elim split [
            | inl here ↦ ap (λ (y : ThemeRow). y.theme) here
            | inr later ↦
                let of_x = (eq_iff x.theme.slug theme.slug).0 same in
                let known =
                  any_of_in (λ (y : ThemeRow). str_eq y.theme.slug x.theme.slug) r rows later
                    ((eq_iff r.theme.slug x.theme.slug).1 (e ∙ sym of_x)) in
                absurd (cc (new, known))
          ]
    ]

empty_theme : (r : ThemeRow) → r.theme.published_services ≡ pos 0 → is_listed_theme false r ≡ false
unfolding is_listed_theme
empty_theme r h = rw h (ground arith)

-- A theme that an upsert gives no published services is on no page of the themes that leaves out
-- the empty ones, whatever rows the table had.
pub hidden_theme :
    (order : List ThemeRow → List ThemeRow) (page per_page : ℤ) (theme listed : CartaTheme)
    (rows : List ThemeRow)
    → ((found : List ThemeRow) (x : ThemeRow) → IsIn x (order found) → IsIn x found)
    → IsKeyed rows
    → theme.published_services ≡ pos 0
    → IsIn listed (list_themes order page per_page false (upsert_theme theme rows)).0
    → listed.slug ≢ theme.slug
unfolding list_themes select_page is_listed_theme
hidden_theme order page per_page theme listed rows only keyed empty h e =
    let (k, n) = clamp_carta_page page per_page in
    let after = upsert_theme theme rows in
    let (r, there, same) =
      map_sound (λ (r : ThemeRow). r.theme) listed
        (select_page order (is_listed_theme false) page per_page after).0 h in
    let found = keep_if (is_listed_theme false) after in
    let (is_row, shown) = keep_if_sound (is_listed_theme false) r after (
      only found r (
        drop_sound ((k - 1) * n) r (order found)
          (take_sound n r (drop ((k - 1) * n) (order found)) there))) in
    let own =
      upserted_only theme rows r keyed is_row (ap (λ (t : CartaTheme). t.slug) (sym same) ∙ e) in
    let none_published = ap (λ (t : CartaTheme). t.published_services) own ∙ empty in
    absurd (cc (shown, empty_theme r none_published))
