-- ===== src/Sync/Featured.antt =====
-- `normalizeHomeFeatured`: the featured services of the home page.
pub mod Distinct
use mathlib.Core.Path.{subst}
use app_catalogo.Common.{
  ℕ, String, ◌≡◌, ◌≢◌, refl, sym, ap, ◌∙◌, ◌⊎◌, inl, inr, Bool, true, false, Option, none, some,
  List, [], ◌∷◌, ◌++◌, map, any, str_eq, eq_iff, arith, IsIn, All, Bool-cases, Option-cases,
  if◌then◌else◌, false_of_not,
}
use app_catalogo.Common.Int.{ℤ, pos, negsuc, ltb_ℤ}
use app_catalogo.Common.Text.{is_empty, trim_space}

-- What the function reads of an item, and the other fields as one text.
pub record CartaHomeFeatured : Type 0 where
  pub slug : String
  pub position : ℤ
  pub other : String

unfoldable pub same_int : ℤ → ℤ → Bool
same_int a b = if ltb_ℤ a b then false else if ltb_ℤ b a then false else true

-- The map bySlug and the order of its slugs, as one list: an item replaces that of its slug if its
-- position is smaller.
unfoldable pub place : CartaHomeFeatured → List CartaHomeFeatured → List CartaHomeFeatured
place item [] = item ∷ []
place item (prev ∷ items) =
    let rest = place item items in
    if str_eq prev.slug item.slug
    then (if ltb_ℤ item.position prev.position then item else prev) ∷ items
    else prev ∷ rest

unfoldable pub by_slug : List CartaHomeFeatured → List CartaHomeFeatured → List CartaHomeFeatured
by_slug [] items = items
by_slug (item ∷ raw) items =
    let slug = trim_space item.slug in
    let placed = place (record item { slug = slug }) items in
    let skipped = by_slug raw items in
    let taken = by_slug raw placed in if is_empty slug then skipped else taken

-- The second loop, with the positions that are taken.
unfoldable pub free_positions : List ℤ → List CartaHomeFeatured → List CartaHomeFeatured
free_positions seen [] = []
free_positions seen (item ∷ items) =
    let skipped = free_positions seen items in
    let kept = free_positions (item.position ∷ seen) items in
    if any (same_int item.position) seen then skipped else item ∷ kept

unfoldable pub normalize_home_featured : List CartaHomeFeatured → List CartaHomeFeatured
normalize_home_featured raw = free_positions [] (by_slug raw [])

abbrev pub slugs : List CartaHomeFeatured → List String
slugs = map (λ (i : CartaHomeFeatured). i.slug)

abbrev pub positions : List CartaHomeFeatured → List ℤ
positions = map (λ (i : CartaHomeFeatured). i.position)

abbrev pub IsDistinct : {A : Type 0} → List A → Type 0
IsDistinct [] = Unit
IsDistinct (x ∷ xs) = ¬ IsIn x xs × IsDistinct xs
