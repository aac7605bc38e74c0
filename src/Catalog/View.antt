-- ===== src/Catalog/View.antt =====
-- The catalog as a function from keys to the active items, which the statements implement.
use mathlib.Core.Path.{fun_ext}
use app_catalogo.Common.{
  ℕ, String, ◌≡◌, refl, sym, ap, ◌∙◌, Bool, true, false, not, ◌&&◌, Option, none, some, List, [],
  ◌∷◌, ◌++◌, map, any, str_eq, eq_iff, arith, Bool-cases, and_elim, false_of_not, ◌⊎◌, inl, inr,
  if◌then◌else◌,
}
use app_catalogo.Catalog.{
  CatalogItem, Row, Table, is_active, is_null, is_key, find_row, overwrite, new_row,
  insert_or_update, hide_if, soft_delete, is_orphan, soft_delete_active_not_in,
}

abbrev pub View : Type 0
View = String → String → Option CatalogItem

abbrev pub item_of : Option Row → Option CatalogItem
item_of none = none
item_of (some r) = some r.item

-- The row has the key, and is active and not deleted.
abbrev pub is_shown : String → String → Row → Bool
is_shown source external_id r =
    is_key source external_id r && (is_null r.deleted_at && is_active r.item.status)

abbrev pub shown : List Row → View
shown rows source external_id = item_of (find_row (is_shown source external_id) rows)

abbrev pub view : Table → View
view t = shown t.rows

abbrev pub if_active : CatalogItem → Option CatalogItem
if_active item = if is_active item.status then some item else none

-- The item at a key, put into the view or taken out of it.
abbrev pub set_view : CatalogItem → View → View
set_view item v source external_id =
    if str_eq item.source source && str_eq item.external_id external_id
    then if_active item
    else v source external_id

abbrev pub unset_view : String → String → View → View
unset_view gone_source gone v source external_id =
    if str_eq gone_source source && str_eq gone external_id then none else v source external_id

abbrev pub keep_view : String → List String → View → View
keep_view swept keep v source external_id =
    if str_eq swept source && not (any (str_eq external_id) keep)
    then none
    else v source external_id

-- A change of rows that leaves alone what is looked for.
find_row-map :
    (p : Row → Bool) (f : Row → Row) (rows : List Row)
    → ((r : Row) → (f r ≡ r) ⊎ ((p (f r) ≡ false) × (p r ≡ false)))
    → find_row p (map f rows) ≡ find_row p rows
unfolding find_row
find_row-map p f [] h = refl
find_row-map p f (r ∷ rows) h =
    let rest = find_row-map p f rows h in
    elim (h r) [ inl same ↦ rw (same, rest) | inr (after, before) ↦ rw (after, before) rest ]

module _ (now : ℕ) (item : CatalogItem) where
  -- At the item's own key.
  overwrite_self :
      (rows : List Row)
      → shown (map (overwrite now item) rows) item.source item.external_id
        ≡ (if any (is_key item.source item.external_id) rows then if_active item else none)
  unfolding find_row overwrite is_key
  overwrite_self [] = refl
  overwrite_self (r ∷ rows) = ground (
    arith,
    (eq_iff item.source item.source).1 refl,
    (eq_iff item.external_id item.external_id).1 refl,
    overwrite_self rows,
  )

  -- A row of the item's key does not have another key.
  other_key :
      (source external_id : String) (r : Row)
      → (str_eq item.source source && str_eq item.external_id external_id) ≡ false
      → is_key item.source item.external_id r ≡ true
      → is_key source external_id r ≡ false
  unfolding is_key
  other_key source external_id r h key =
      ground (arith, eq_iff r.item.source item.source, eq_iff r.item.external_id item.external_id)

  -- At another key.
  overwrite_other :
      (source external_id : String) (rows : List Row)
      → (str_eq item.source source && str_eq item.external_id external_id) ≡ false
      → shown (map (overwrite now item) rows) source external_id ≡ shown rows source external_id
  unfolding overwrite
  overwrite_other source external_id rows h = ap item_of (
      find_row-map (is_shown source external_id) (overwrite now item) rows λ r.
        elim (Bool-cases (is_key item.source item.external_id r)) [
          | inr different ↦ inl (rw different)
          | inl key ↦
              let before = other_key source external_id r h key in
              inr (rw key (ap (λ b. b && is_active item.status) h), rw before)
        ])

  append_self :
      (id : ℕ) (rows : List Row)
      → any (is_key item.source item.external_id) rows ≡ false
      → shown (rows ++ new_row id now item ∷ []) item.source item.external_id ≡ if_active item
  unfolding find_row is_key new_row
  append_self id [] h = ground (
    arith,
    (eq_iff item.source item.source).1 refl,
    (eq_iff item.external_id item.external_id).1 refl,
  )
  append_self id (r ∷ rows) h = ground (arith, append_self id rows)

  append_other :
      (id : ℕ) (source external_id : String) (rows : List Row)
      → (str_eq item.source source && str_eq item.external_id external_id) ≡ false
      → shown (rows ++ new_row id now item ∷ []) source external_id ≡ shown rows source external_id
  unfolding find_row is_key new_row
  append_other id source external_id [] h = ground arith
  append_other id source external_id (r ∷ rows) h =
      ground (arith, append_other id source external_id rows h)

  at_key :
      (source external_id : String)
      → (str_eq item.source source && str_eq item.external_id external_id) ≡ true
      → (item.source ≡ source) × (item.external_id ≡ external_id)
  at_key source external_id h =
      let (a, b) = and_elim (str_eq item.source source) (str_eq item.external_id external_id) h in
      ((eq_iff item.source source).0 a, (eq_iff item.external_id external_id).0 b)

  insert_self :
      (t : Table) → view (insert_or_update now item t) item.source item.external_id ≡ if_active item
  unfolding insert_or_update
  insert_self t = elim (Bool-cases (any (is_key item.source item.external_id) t.rows)) [
    | inl there ↦ rw there (overwrite_self t.rows ∙ rw there)
    | inr new ↦ rw new (append_self t.next_id t.rows new)
  ]

  insert_other :
      (source external_id : String) (t : Table)
      → (str_eq item.source source && str_eq item.external_id external_id) ≡ false
      → view (insert_or_update now item t) source external_id ≡ view t source external_id
  unfolding insert_or_update
  insert_other source external_id t h =
      elim (Bool-cases (any (is_key item.source item.external_id) t.rows)) [
        | inl there ↦ rw there (overwrite_other source external_id t.rows h)
        | inr new ↦ rw new (append_other t.next_id source external_id t.rows h)
      ]

  pub view-insert_or_update :
      (t : Table) → view (insert_or_update now item t) ≡ set_view item (view t)
  view-insert_or_update t = fun_ext λ source. fun_ext λ external_id.
      elim (Bool-cases (str_eq item.source source && str_eq item.external_id external_id)) [
        | inr other ↦ insert_other source external_id t other ∙ sym (rw other)
        | inl same ↦
            let (s, e) = at_key source external_id same in
            ap (λ x. view (insert_or_update now item t) x external_id) (sym s)
            ∙ ap (λ y. view (insert_or_update now item t) item.source y) (sym e)
            ∙ insert_self t
            ∙ sym (rw same)
      ]

-- Hiding rows that all have the key, or none.
module _ (now : ℕ) (p : Row → Bool) (source external_id : String) where
  hide_none :
      (rows : List Row)
      → ((r : Row) → is_shown source external_id r ≡ true → p r ≡ false)
      → shown (map (hide_if now p) rows) source external_id ≡ shown rows source external_id
  unfolding hide_if is_key
  hide_none rows h = ap item_of (
      find_row-map (is_shown source external_id) (hide_if now p) rows λ r. elim (Bool-cases (p r)) [
        | inr kept ↦ inl (rw kept)
        | inl hidden ↦ inr (
          rw hidden (ground arith),
          false_of_not (is_shown source external_id r) (λ k. cc (h r k, hidden)),
        )
      ])

  hide_all :
      (rows : List Row)
      → ((r : Row) → is_shown source external_id r ≡ true → p r ≡ true)
      → shown (map (hide_if now p) rows) source external_id ≡ none
  unfolding hide_if find_row is_key
  hide_all [] h = refl
  hide_all (r ∷ rows) h = ground (arith, h r, hide_all rows h)

pub view-soft_delete :
    (now : ℕ) (source external_id : String) (t : Table)
    → view (soft_delete now source external_id t) ≡ unset_view source external_id (view t)
unfolding soft_delete is_key
view-soft_delete now source external_id t = fun_ext λ s. fun_ext λ e.
    elim (Bool-cases (str_eq source s && str_eq external_id e)) [
      | inl same ↦
          hide_all now (is_key source external_id) s e t.rows
            (λ r h. ground (arith, eq_iff source s, eq_iff external_id e))
          ∙ sym (rw same)
      | inr other ↦
          hide_none now (is_key source external_id) s e t.rows (λ r h. ground (
            arith,
            eq_iff r.item.source source,
            eq_iff r.item.external_id external_id,
            eq_iff r.item.source s,
            eq_iff r.item.external_id e,
            eq_iff source s,
            eq_iff external_id e,
          ))
          ∙ sym (rw other)
    ]

-- What a row that is shown at a key has.
shown_row :
    (source external_id : String) (r : Row)
    → is_shown source external_id r ≡ true
    → (r.item.source ≡ source)
      × (r.item.external_id ≡ external_id)
      × (is_null r.deleted_at ≡ true)
      × (is_active r.item.status ≡ true)
unfolding is_key
shown_row source external_id r h =
    ground (arith, eq_iff r.item.source source, eq_iff r.item.external_id external_id)

shown_orphan :
    (source external_id : String) (swept : String) (keep : List String) (r : Row)
    → is_shown source external_id r ≡ true
    → is_orphan swept keep r ≡ (str_eq swept source && not (any (str_eq external_id) keep))
unfolding is_orphan
shown_orphan source external_id swept keep r h =
    let (s, e, alive, active) = shown_row source external_id r h in
    let flipped : str_eq r.item.source swept ≡ str_eq swept source =
      ground (arith, s, eq_iff r.item.source swept, eq_iff swept source) in
    let kept : any (str_eq r.item.external_id) keep ≡ any (str_eq external_id) keep =
      ap (λ x. any (str_eq x) keep) e in
    rw (flipped, alive, active, kept) (ground arith)

pub view-sweep :
    (now : ℕ) (source : String) (keep : List String) (t : Table)
    → view (soft_delete_active_not_in now source keep t).1 ≡ keep_view source keep (view t)
unfolding soft_delete_active_not_in
view-sweep now source keep t = fun_ext λ s. fun_ext λ e.
    elim (Bool-cases (str_eq source s && not (any (str_eq e) keep))) [
      | inl orphan ↦
          hide_all now (is_orphan source keep) s e t.rows
            (λ r h. shown_orphan s e source keep r h ∙ orphan)
          ∙ sym (rw orphan)
      | inr kept ↦
          hide_none now (is_orphan source keep) s e t.rows
            (λ r h. shown_orphan s e source keep r h ∙ kept)
          ∙ sym (rw kept)
    ]
