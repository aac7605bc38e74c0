-- ===== src/Carta/Aliases.antt =====
-- The table carta_service_slug_aliases, whose key is old_slug, as a list of entries in the order of
-- their last change. What the database answers to a statement is an argument.
use app_catalogo.Common.{
  String, ◌≡◌, not, ◌||◌, Option, none, some, List, [], ◌∷◌, keep_if, str_eq, eq_iff, arith,
  if◌then◌else◌,
}
use app_catalogo.Common.Go.{Result, ok, err, Error}
use app_catalogo.Common.Text.{is_empty, trim_space}
use app_catalogo.Common.Maps.{lookup}

abbrev pub Aliases : Type 0
Aliases = List (String × String)

pub data Statement : Type 0 where
  insert delete : String → Statement

-- DELETE … WHERE old_slug = $1
unfoldable pub erase : String → Aliases → Aliases
erase old aliases = keep_if (λ (e : String × String). not (str_eq e.0 old)) aliases

-- INSERT … ON CONFLICT (old_slug) DO UPDATE
unfoldable pub put : String → String → Aliases → Aliases
unfolding erase
put old canonical aliases = (old, canonical) ∷ erase old aliases

abbrev pub exec : Option Error → Aliases → Aliases → Option Error × Aliases
exec none after before = (none, after)
exec (some e) after before = (some e, before)

-- `DeleteSlugAlias`
unfoldable pub delete_slug_alias :
    (Statement → Option Error) → String → Aliases → Option Error × Aliases
delete_slug_alias answer old aliases =
    let slug = trim_space old in
    if is_empty slug
    then (none, aliases)
    else exec (answer (delete slug)) (erase slug aliases) aliases

unfoldable pub after_insert :
    (Statement → Option Error) → String → Option Error × Aliases → Option Error × Aliases
after_insert answer canonical (some e, aliases) = (some e, aliases)
after_insert answer canonical (none, aliases) = delete_slug_alias answer canonical aliases

-- `UpsertSlugAlias`
unfoldable pub upsert_slug_alias :
    (Statement → Option Error) → String → String → Aliases → Option Error × Aliases
upsert_slug_alias answer old_slug canonical_slug aliases =
    let old = trim_space old_slug in
    let canonical = trim_space canonical_slug in
    if is_empty old || is_empty canonical || str_eq old canonical
    then (none, aliases)
    else after_insert answer canonical
        (exec (answer (insert old)) (put old canonical aliases) aliases)

-- The loop of `UpsertSlugAliases` and the statement after it.
unfoldable pub upsert_each :
    (Statement → Option Error) → String → List String → Aliases → Option Error × Aliases
upsert_each answer canonical [] aliases = delete_slug_alias answer canonical aliases
upsert_each answer canonical (old ∷ olds) aliases =
    let (e, next) = upsert_slug_alias answer old canonical aliases in
    elim e [ some e ↦ (some e, next) | none ↦ upsert_each answer canonical olds next ]

-- `UpsertSlugAliases`
unfoldable pub upsert_slug_aliases :
    (Statement → Option Error) → String → List String → Aliases → Option Error × Aliases
upsert_slug_aliases answer canonical_slug olds aliases =
    let canonical = trim_space canonical_slug in
    if is_empty canonical then (none, aliases) else upsert_each answer canonical olds aliases

abbrev pub or_blank : Option String → String
or_blank none = ""
or_blank (some s) = s

-- `ResolveSlugAlias`; the error is that of the query, other than pgx.ErrNoRows.
unfoldable pub resolve_slug_alias : Option Error → String → Aliases → Result Error String
resolve_slug_alias e old_slug aliases =
    let old = trim_space old_slug in
    if is_empty old
    then ok ""
    else elim e [ some e ↦ err e | none ↦ ok (or_blank (lookup old aliases)) ]

pub lookup-erase :
    (k j : String) (aliases : Aliases)
    → lookup k (erase j aliases) ≡ (if str_eq k j then none else lookup k aliases)
unfolding lookup erase
lookup-erase k j [] = ground arith
lookup-erase k j (e ∷ aliases) =
    ground (arith, eq_iff k j, eq_iff e.0 k, eq_iff e.0 j, lookup-erase k j aliases)

pub lookup-put :
    (k j c : String) (aliases : Aliases)
    → lookup k (put j c aliases) ≡ (if str_eq k j then some c else lookup k aliases)
unfolding lookup put
lookup-put k j c aliases = ground (arith, eq_iff k j, eq_iff j k, lookup-erase k j aliases)
