-- ===== src/Carta/Points.antt =====
-- The alias of a moved slug, through the later changes of the aliases of its service.
use app_catalogo.Common.{
  String, ◌≡◌, ◌≢◌, refl, ◌∙◌, false, ◌||◌, none, some, List, [], ◌∷◌, str_eq, eq_iff, arith,
  Bool-cases, false_of_not, inl, inr,
}
use app_catalogo.Common.Text.{is_empty, trim_space}
use app_catalogo.Common.Maps.{lookup}
use app_catalogo.Carta.Aliases.{
  Aliases, delete_slug_alias, upsert_slug_alias, after_insert, upsert_each, upsert_slug_aliases,
  lookup-erase,
}
use app_catalogo.Carta.Acyclic.{moved, lookup-moved}
use app_catalogo.Carta.Resolve.{accepts}

-- The slug leads to the canonical one, which is no alias.
abbrev pub Points : String → String → Aliases → Type 0
Points slug canonical aliases =
    (lookup slug aliases ≡ some canonical) × (lookup canonical aliases ≡ none)

module _ (slug canonical : String) (distinct : slug ≢ canonical) (text : is_empty canonical ≡ false)
    (trimmed : trim_space canonical ≡ canonical) where
  moved-Points :
      (old : String) (aliases : Aliases)
      → Points slug canonical aliases
      → Points slug canonical (moved old canonical aliases)
  moved-Points old aliases (leads, ends) =
      let other =
        false_of_not (str_eq slug canonical) (λ h. distinct ((eq_iff slug canonical).0 h)) in
      (
        lookup-moved slug old canonical aliases ∙ ground (arith, other, leads),
        lookup-moved canonical old canonical aliases ∙ rw ((eq_iff canonical canonical).1 refl),
      )

  -- The alias that the move itself makes.
  pub moved_slug-Points : (aliases : Aliases) → Points slug canonical (moved slug canonical aliases)
  moved_slug-Points aliases =
      let other =
        false_of_not (str_eq slug canonical) (λ h. distinct ((eq_iff slug canonical).0 h)) in
      (
        lookup-moved slug slug canonical aliases ∙ rw (other, (eq_iff slug slug).1 refl),
        lookup-moved canonical slug canonical aliases ∙ rw ((eq_iff canonical canonical).1 refl),
      )

  delete-Points :
      (aliases : Aliases)
      → Points slug canonical aliases
      → Points slug canonical (delete_slug_alias accepts canonical aliases).1
  unfolding delete_slug_alias
  delete-Points aliases (leads, ends) =
      let other =
        false_of_not (str_eq slug canonical) (λ h. distinct ((eq_iff slug canonical).0 h)) in
      rw (trimmed, text)
        (
          lookup-erase slug canonical aliases ∙ rw (other, leads),
          lookup-erase canonical canonical aliases ∙ rw ((eq_iff canonical canonical).1 refl),
        )

  upsert-Points :
      (old : String) (aliases : Aliases)
      → Points slug canonical aliases
      → Points slug canonical (upsert_slug_alias accepts old canonical aliases).1
  unfolding upsert_slug_alias after_insert delete_slug_alias
  upsert-Points old aliases points =
      elim (Bool-cases
        (is_empty (trim_space old) || is_empty canonical || str_eq (trim_space old) canonical)) [
          | inl ignored ↦ rw (trimmed, ignored) points
          | inr kept ↦
              rw (trimmed, kept, trimmed, text) (moved-Points (trim_space old) aliases points)
        ]

  upsert_well :
      (old : String) (aliases : Aliases)
      → (upsert_slug_alias accepts old canonical aliases).0 ≡ none
  unfolding upsert_slug_alias after_insert delete_slug_alias
  upsert_well old aliases =
      elim (Bool-cases
        (is_empty (trim_space old) || is_empty canonical || str_eq (trim_space old) canonical)) [
          | inl ignored ↦ rw (trimmed, ignored) refl
          | inr kept ↦ rw (trimmed, kept, trimmed, text) refl
        ]

  upsert_each-Points :
      (olds : List String) (aliases : Aliases)
      → Points slug canonical aliases
      → Points slug canonical (upsert_each accepts canonical olds aliases).1
  unfolding upsert_each
  upsert_each-Points [] aliases points = delete-Points aliases points
  upsert_each-Points (old ∷ olds) aliases points =
      rw (upsert_well old aliases, upsert_each)
        (upsert_each-Points olds (upsert_slug_alias accepts old canonical aliases).1
          (upsert-Points old aliases points))

  pub upsert_all-Points :
      (olds : List String) (aliases : Aliases)
      → Points slug canonical aliases
      → Points slug canonical (upsert_slug_aliases accepts canonical olds aliases).1
  unfolding upsert_slug_aliases
  upsert_all-Points olds aliases points =
      rw (trimmed, text) (upsert_each-Points olds aliases points)
