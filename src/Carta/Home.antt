-- ===== src/Carta/Home.antt =====
-- The table carta_home_featured, whose slugs and positions are unique, and its snapshot.
pub mod Snapshot
use app_catalogo.Common.{
  String, Bool, true, false, not, ◌&&◌, ◌||◌, Option, none, some, List, [], ◌∷◌, any, length, leb,
  str_eq, if◌then◌else◌,
}
use app_catalogo.Common.Int.{ℤ, ltb_ℤ}
use app_catalogo.Common.Go.{Error, message}
use app_catalogo.Sync.Featured.{CartaHomeFeatured, same_int}

-- The answers of the database to a transaction, but for the keys of the table.
pub record Replies : Type 0 where
  pub begin : Option Error
  pub delete : Option Error
  pub copy : Option Error
  pub commit : Option Error

unfoldable pub has_conflict : List CartaHomeFeatured → Bool
has_conflict [] = false
has_conflict (i ∷ items) =
    any (λ (j : CartaHomeFeatured). str_eq i.slug j.slug || same_int i.position j.position) items
    || has_conflict items

unfoldable pub copy_from : Replies → List CartaHomeFeatured → Option Error
unfolding has_conflict
copy_from replies items =
    if leb (length items) 0
    then none
    else if has_conflict items
    then some (message "duplicate key value violates unique constraint")
    else replies.copy

abbrev or_else : Option Error → Option Error → Option Error
or_else (some e) f = some e
or_else none f = f

abbrev settled :
    List CartaHomeFeatured
    → List CartaHomeFeatured
    → Option Error
    → Option Error × List CartaHomeFeatured
settled items before none = (none, items)
settled items before (some e) = (some e, before)

-- `ReplaceHomeFeatured`: the first error ends the transaction, which then leaves the table as it was.
unfoldable pub replace_home_featured :
    Replies
    → List CartaHomeFeatured
    → List CartaHomeFeatured
    → Option Error × List CartaHomeFeatured
unfolding copy_from
replace_home_featured replies items before = settled items before (
    or_else replies.begin
      (or_else replies.delete (or_else (copy_from replies items) replies.commit)))

-- ORDER BY position ASC, slug ASC; the order of texts is an argument.
abbrev pub comes_before : (String → String → Bool) → CartaHomeFeatured → CartaHomeFeatured → Bool
comes_before text_before a b =
    ltb_ℤ a.position b.position || (not (ltb_ℤ b.position a.position) && text_before a.slug b.slug)

unfoldable pub insert_featured :
    (String → String → Bool) → CartaHomeFeatured → List CartaHomeFeatured → List CartaHomeFeatured
insert_featured text_before i [] = i ∷ []
insert_featured text_before i (j ∷ items) =
    let rest = insert_featured text_before i items in
    if comes_before text_before i j then i ∷ j ∷ items else j ∷ rest

-- `ListHomeFeatured`
unfoldable pub list_home_featured :
    (String → String → Bool) → List CartaHomeFeatured → List CartaHomeFeatured
unfolding insert_featured
list_home_featured text_before [] = []
list_home_featured text_before (i ∷ items) =
    insert_featured text_before i (list_home_featured text_before items)
