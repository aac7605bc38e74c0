-- ===== src/Catalog/Runs.antt =====
-- The statements on the catalog in any order, and what they do to its view.
use app_catalogo.Common.{
  ℕ, ◌+◌, String, ◌≡◌, refl, ap, ◌∙◌, Bool, true, false, Option, none, some, List, [], ◌∷◌, map,
  ◌==◌, arith, Option-cases, inl, inr, if◌then◌else◌,
}
use mathlib.Core.Path.{fun_ext}
use app_catalogo.Common.Go.{Error}
use app_catalogo.Catalog.{
  CatalogItem, Row, Table, find_row, is_key, stored, marshal_raw, batch_item, insert_or_update,
  upsert, batch_loop, commit_batch, upsert_batch, soft_delete, soft_delete_active_not_in,
  update_embedding,
}
use app_catalogo.Catalog.View.{
  View, view, shown, set_view, unset_view, keep_view, view-insert_or_update, view-soft_delete,
  view-sweep,
}

-- What the database answers to a batch.
pub record Answers : Type 0 where
  pub begin : Option Error
  pub insert : CatalogItem → Option Error
  pub commit : Option Error

-- One statement or transaction, with the instant and the answers.
pub data Op : Type 0 where
  upserts : Option Error → ℕ → CatalogItem → Op
  upserts_batch : Answers → ℕ → List CatalogItem → Op
  deletes : ℕ → String → String → Op
  sweeps : ℕ → String → List String → Op
  embeds : ℕ → ℕ → String → Op

module _ (compact : String → Option String) where
  -- The item that `Upsert` writes.
  abbrev pub upsert_item : CatalogItem → CatalogItem
  upsert_item item = stored (record item {
    target_audience = some (marshal_raw compact item.target_audience);
    source_data = some (marshal_raw compact item.source_data);
  })

  unfoldable pub apply : Op → Table → Table
  apply (upserts answer now item) t = (upsert compact answer now item t).1
  apply (upserts_batch a now items) t = (upsert_batch a.begin a.insert a.commit now items t).1
  apply (deletes now source external_id) t = soft_delete now source external_id t
  apply (sweeps now source keep) t = (soft_delete_active_not_in now source keep t).1
  apply (embeds now id vector) t = update_embedding now id vector t

  unfoldable pub run : List Op → Table → Table
  run [] t = t
  run (op ∷ ops) t = run ops (apply op t)

  -- The items of a batch, put into the view in order.
  abbrev pub set_all : List CatalogItem → View → View
  set_all [] v = v
  set_all (item ∷ items) v = set_all items (set_view (batch_item item) v)

  -- A batch is put into the view as a whole, or not at all.
  abbrev all_accepted : (CatalogItem → Option Error) → List CatalogItem → Bool
  all_accepted answer [] = true
  all_accepted answer (item ∷ items) = elim (answer item) [
    | none ↦ all_accepted answer items
    | some e ↦ false
  ]

  abbrev accepted : Option Error → Bool
  accepted none = true
  accepted (some e) = false

  abbrev pub set_batch : Answers → List CatalogItem → View → View
  set_batch a items v =
      if accepted a.begin
      then (if all_accepted a.insert items
          then (if accepted a.commit then set_all items v else v)
          else v)
      else v

  abbrev pub apply_view : Op → View → View
  apply_view (upserts none now item) v = set_view (upsert_item item) v
  apply_view (upserts (some e) now item) v = v
  apply_view (upserts_batch a now items) v = set_batch a items v
  apply_view (deletes now source external_id) v = unset_view source external_id v
  apply_view (sweeps now source keep) v = keep_view source keep v
  apply_view (embeds now id vector) v = v

  abbrev pub run_view : List Op → View → View
  run_view [] v = v
  run_view (op ∷ ops) v = run_view ops (apply_view op v)

  loop_accepted :
      (answer : CatalogItem → Option Error) (now : ℕ) (items : List CatalogItem) (count : ℕ)
      (t : Table)
      → all_accepted answer items ≡ true
      → ((batch_loop answer now items count t).1 ≡ none)
        × (view (batch_loop answer now items count t).2 ≡ set_all items (view t))
  unfolding batch_loop
  loop_accepted answer now [] count t h = (refl, refl)
  loop_accepted answer now (item ∷ items) count t h = elim (Option-cases (answer item)) [
    | inr (e, refused) ↦ absurd (ground arith)
    | inl well ↦
        let next = insert_or_update now (batch_item item) t in
        let (none_refused, seen) = loop_accepted answer now items (count + 1) next (ground arith) in
        rw (well, batch_loop)
          (none_refused, seen ∙ ap (set_all items) (view-insert_or_update now (batch_item item) t))
  ]

  loop_refused :
      (answer : CatalogItem → Option Error) (now : ℕ) (items : List CatalogItem) (count : ℕ)
      (t : Table)
      → all_accepted answer items ≡ false
      → (e : Error) × ((batch_loop answer now items count t).1 ≡ some e)
  unfolding batch_loop
  loop_refused answer now [] count t h = cc
  loop_refused answer now (item ∷ items) count t h = elim (Option-cases (answer item)) [
    | inr (e, refused) ↦ (e, rw (refused, batch_loop) refl)
    | inl well ↦
        let (e, refused) =
          loop_refused answer now items (count + 1) (insert_or_update now (batch_item item) t)
            (ground arith) in
        (e, rw (well, batch_loop) refused)
  ]

  -- A transaction that began.
  view-begun :
      (answer : CatalogItem → Option Error) (commit : Option Error) (now : ℕ) (item : CatalogItem)
      (items : List CatalogItem) (t : Table) (b : Bool)
      → all_accepted answer (item ∷ items) ≡ b
      → view (upsert_batch none answer commit now (item ∷ items) t).1 ≡ (
          if b
          then (if accepted commit then set_all (item ∷ items) (view t) else view t)
          else view t)
  unfolding upsert_batch
  view-begun answer commit now item items t false h =
      let (e, refused) = loop_refused answer now (item ∷ items) 0 t h in
      rw (refused, commit_batch) refl
  view-begun answer none now item items t true h =
      let (well, seen) = loop_accepted answer now (item ∷ items) 0 t h in
      rw (well, commit_batch) seen
  view-begun answer (some e) now item items t true h =
      let (well, seen) = loop_accepted answer now (item ∷ items) 0 t h in
      rw (well, commit_batch) refl

  view-upsert_batch :
      (begin : Option Error) (answer : CatalogItem → Option Error) (commit : Option Error) (now : ℕ)
      (items : List CatalogItem) (t : Table)
      → view (upsert_batch begin answer commit now items t).1
        ≡ set_batch (record { begin = begin; insert = answer; commit = commit }) items (view t)
  unfolding upsert_batch
  view-upsert_batch begin answer commit now [] t = ground arith
  view-upsert_batch (some e) answer commit now (item ∷ items) t = refl
  view-upsert_batch none answer commit now (item ∷ items) t =
      view-begun answer commit now item items t (all_accepted answer (item ∷ items)) refl

  view-update_embedding :
      (now id : ℕ) (vector : String) (t : Table) → view (update_embedding now id vector t) ≡ view t
  unfolding update_embedding find_row is_key
  view-update_embedding now id vector t = fun_ext λ s. fun_ext λ e. same t.rows s e
    where
      same :
          (rows : List Row) (s e : String)
          → shown
              (map
                (λ (r : Row).
                  if r.id == id then record r { embedding = some vector; updated_at = now } else r)
                rows)
              s
              e
            ≡ shown rows s e
      same [] s e = refl
      same (r ∷ rows) s e = ground (arith, same rows s e)

  view-apply : (op : Op) (t : Table) → view (apply op t) ≡ apply_view op (view t)
  unfolding apply upsert
  view-apply (upserts none now item) t = view-insert_or_update now (upsert_item item) t
  view-apply (upserts (some e) now item) t = refl
  view-apply (upserts_batch a now items) t = view-upsert_batch a.begin a.insert a.commit now items t
  view-apply (deletes now source external_id) t = view-soft_delete now source external_id t
  view-apply (sweeps now source keep) t = view-sweep now source keep t
  view-apply (embeds now id vector) t = view-update_embedding now id vector t

  -- The table implements the view: whatever statements run, in whatever order and with whatever
  -- answers, the active items after them are those that the statements make of the active items
  -- before. An upsert puts its item at its key, or takes what is there away if it is not active; a
  -- batch does so for each item in order, or, if the database refuses any part of it, for none; a
  -- deletion takes the item at its key away; a sweep takes away the items of its source that it does
  -- not keep; nothing else changes.
  pub view-run : (ops : List Op) (t : Table) → view (run ops t) ≡ run_view ops (view t)
  unfolding run
  view-run [] t = refl
  view-run (op ∷ ops) t = view-run ops (apply op t) ∙ ap (run_view ops) (view-apply op t)
