-- ===== src/Carta/Resolve.antt =====
-- What the aliases give after a change.
use app_catalogo.Common.{
  String, ◌≡◌, ◌≢◌, refl, ap, ◌∙◌, false, Option, none, some, str_eq, eq_iff, false_of_not,
}
use app_catalogo.Common.Go.{ok, Error}
use app_catalogo.Common.Text.{is_empty, trim_space}
use app_catalogo.Common.Text.Trim.{trim_space_twice}
use app_catalogo.Common.Maps.{lookup}
use app_catalogo.Carta.Aliases.{
  Aliases, Statement, after_insert, delete_slug_alias, upsert_slug_alias, resolve_slug_alias,
}
use app_catalogo.Carta.Acyclic.{moved, lookup-moved}

-- The database takes every statement.
abbrev pub accepts : Statement → Option Error
accepts s = none

pub upsert_moves :
    (old canonical : String) (aliases : Aliases)
    → is_empty (trim_space old) ≡ false
    → is_empty (trim_space canonical) ≡ false
    → trim_space old ≢ trim_space canonical
    → upsert_slug_alias accepts old canonical aliases
      ≡ (none, moved (trim_space old) (trim_space canonical) aliases)
unfolding upsert_slug_alias after_insert delete_slug_alias
upsert_moves old canonical aliases old_text text distinct =
    let different =
      false_of_not (str_eq (trim_space old) (trim_space canonical))
        (λ h. distinct ((eq_iff (trim_space old) (trim_space canonical)).0 h)) in
    rw (old_text, text, different, trim_space_twice canonical) (rw text refl)

-- After `UpsertSlugAlias` of two distinct slugs, which the database takes, the old slug resolves to
-- the canonical one, the canonical one is no alias, and every other slug resolves as before.
pub resolve-upsert_slug_alias :
    (old canonical other : String) (aliases : Aliases)
    → is_empty (trim_space old) ≡ false
    → is_empty (trim_space canonical) ≡ false
    → trim_space old ≢ trim_space canonical
    → trim_space other ≢ trim_space old
    → trim_space other ≢ trim_space canonical
    → (resolve_slug_alias none old (upsert_slug_alias accepts old canonical aliases).1
        ≡ ok (trim_space canonical))
      × (resolve_slug_alias none canonical (upsert_slug_alias accepts old canonical aliases).1
          ≡ ok "")
      × (resolve_slug_alias none other (upsert_slug_alias accepts old canonical aliases).1
          ≡ resolve_slug_alias none other aliases)
unfolding resolve_slug_alias
resolve-upsert_slug_alias old canonical other aliases old_text text distinct not_old not_canonical =
    let o = trim_space old in
    let c = trim_space canonical in
    let s = trim_space other in
    let done =
      ap (λ (r : Option Error × Aliases). r.1)
        (upsert_moves old canonical aliases old_text text distinct) in
    let oc = false_of_not (str_eq o c) (λ h. distinct ((eq_iff o c).0 h)) in
    let so = false_of_not (str_eq s o) (λ h. not_old ((eq_iff s o).0 h)) in
    let sc = false_of_not (str_eq s c) (λ h. not_canonical ((eq_iff s c).0 h)) in
    let at_old : lookup o (moved o c aliases) ≡ some c =
      lookup-moved o o c aliases ∙ rw (oc, (eq_iff o o).1 refl) in
    let at_canonical : lookup c (moved o c aliases) ≡ none =
      lookup-moved c o c aliases ∙ rw ((eq_iff c c).1 refl) in
    let at_other : lookup s (moved o c aliases) ≡ lookup s aliases =
      lookup-moved s o c aliases ∙ rw (so, sc) in
    (rw (old_text, done, at_old) refl, rw (text, done, at_canonical) refl, rw (done, at_other) refl)
