-- ===== src/Carta/Acyclic.antt =====
-- Following the aliases of slugs ends.
use app_catalogo.Common.{
  ℕ, zero, suc, String, ◌≡◌, ◌⊎◌, refl, ◌∙◌, ap, Bool, false, ◌||◌, Option, none, some, List, [],
  ◌∷◌, str_eq, eq_iff, arith, Bool-cases, Option-cases, inl, inr, if◌then◌else◌,
}
use app_catalogo.Common.Go.{Error}
use app_catalogo.Common.Text.{is_empty, trim_space}
use app_catalogo.Common.Text.Trim.{trim_space_twice}
use app_catalogo.Common.Maps.{lookup}
use app_catalogo.Carta.Aliases.{
  Aliases, Statement, insert, delete, erase, put, exec, delete_slug_alias, after_insert,
  upsert_slug_alias, upsert_each, upsert_slug_aliases, lookup-erase, lookup-put,
}

-- So many aliases lead from the slug to one that is no alias.
abbrev pub Ends : ℕ → Aliases → String → Type 0
Ends zero aliases slug = lookup slug aliases ≡ none
Ends (suc n) aliases slug =
    (next : String) × (lookup slug aliases ≡ some next) × Ends n aliases next

or_false_right : (a b c : Bool) → (a || b || c) ≡ false → b ≡ false
or_false_right a b c h = ground arith

-- From every slug the aliases come to an end: they have no cycle.
abbrev pub IsAcyclic : Aliases → Type 0
IsAcyclic aliases = (slug : String) → (n : ℕ) × Ends n aliases slug

-- What a change may do to the alias of a slug: remove it, lead it to a slug that is no alias, or
-- leave it.
abbrev Change : Aliases → Aliases → String → Type 0
Change before after slug =
    (lookup slug after ≡ none)
    ⊎ (((end : String) × (lookup slug after ≡ some end) × (lookup end after ≡ none))
        ⊎ (lookup slug after ≡ lookup slug before))

keep_end :
    (n : ℕ) (before after : Aliases) (slug : String)
    → ((s : String) → Change before after s)
    → Ends n before slug
    → (m : ℕ) × Ends m after slug
keep_end zero before after slug change h = elim (change slug) [
  | inl gone ↦ (zero, gone)
  | inr (inl (end, leads, is_end)) ↦ (1, (end, leads, is_end))
  | inr (inr same) ↦ (zero, same ∙ h)
]
keep_end (suc n) before after slug change (next, leads, h) =
    let (m, rest) = keep_end n before after next change h in
    elim (change slug) [
      | inl gone ↦ (zero, gone)
      | inr (inl (end, leads_to, is_end)) ↦ (1, (end, leads_to, is_end))
      | inr (inr same) ↦ (suc m, (next, same ∙ leads, rest))
    ]

changed-IsAcyclic :
    (before after : Aliases)
    → ((s : String) → Change before after s)
    → IsAcyclic before
    → IsAcyclic after
changed-IsAcyclic before after change acyclic slug =
    let (n, h) = acyclic slug in keep_end n before after slug change h

erase-IsAcyclic :
    (gone : String) (aliases : Aliases) → IsAcyclic aliases → IsAcyclic (erase gone aliases)
erase-IsAcyclic gone aliases = changed-IsAcyclic aliases (erase gone aliases) λ s.
    elim (Bool-cases (str_eq s gone)) [
      | inl same ↦ inl (lookup-erase s gone aliases ∙ rw same)
      | inr other ↦ inr (inr (lookup-erase s gone aliases ∙ rw other))
    ]

-- The two statements of an upsert that both take place.
abbrev pub moved : String → String → Aliases → Aliases
moved old canonical aliases = erase canonical (put old canonical aliases)

pub lookup-moved :
    (s old canonical : String) (aliases : Aliases)
    → lookup s (moved old canonical aliases) ≡ (
        if str_eq s canonical
        then none
        else if str_eq s old
        then some canonical
        else lookup s aliases)
lookup-moved s old canonical aliases =
    lookup-erase s canonical (put old canonical aliases)
    ∙ ap (λ o. if str_eq s canonical then none else o) (lookup-put s old canonical aliases)

moved-IsAcyclic :
    (old canonical : String) (aliases : Aliases)
    → IsAcyclic aliases
    → IsAcyclic (moved old canonical aliases)
moved-IsAcyclic old canonical aliases = changed-IsAcyclic aliases (moved old canonical aliases) λ s.
    let at = lookup-moved s old canonical aliases in
    elim (Bool-cases (str_eq s canonical)) [
      | inl is_end ↦ inl (at ∙ rw is_end)
      | inr open_end ↦ elim (Bool-cases (str_eq s old)) [
        | inl is_old ↦
            let ends : lookup canonical (moved old canonical aliases) ≡ none =
              lookup-moved canonical old canonical aliases
              ∙ rw ((eq_iff canonical canonical).1 refl) in
            inr (inl (canonical, at ∙ rw (open_end, is_old), ends))
        | inr other ↦ inr (inr (at ∙ rw (open_end, other)))
      ]
    ]

module _ (answer : Statement → Option Error)
    (deletes : (s : String) → answer (delete s) ≡ none) where
  delete_slug_alias-IsAcyclic :
      (old : String) (aliases : Aliases)
      → IsAcyclic aliases
      → IsAcyclic (delete_slug_alias answer old aliases).1
  unfolding delete_slug_alias
  delete_slug_alias-IsAcyclic old aliases acyclic = elim (Bool-cases (is_empty (trim_space old))) [
    | inl empty ↦ rw empty acyclic
    | inr text ↦
        rw (text, deletes (trim_space old)) (erase-IsAcyclic (trim_space old) aliases acyclic)
  ]

  after_insert-IsAcyclic :
      (old canonical : String) (aliases : Aliases) (e : Option Error)
      → IsAcyclic aliases
      → is_empty (trim_space canonical) ≡ false
      → IsAcyclic
          (after_insert answer
            (trim_space canonical)
            (exec e (put old (trim_space canonical) aliases) aliases)).1
  unfolding after_insert delete_slug_alias
  after_insert-IsAcyclic old canonical aliases (some e) acyclic text = acyclic
  after_insert-IsAcyclic old canonical aliases none acyclic text =
      rw (trim_space_twice canonical, text, deletes (trim_space canonical))
        (moved-IsAcyclic old (trim_space canonical) aliases acyclic)

  upsert_slug_alias-IsAcyclic :
      (old canonical : String) (aliases : Aliases)
      → IsAcyclic aliases
      → IsAcyclic (upsert_slug_alias answer old canonical aliases).1
  unfolding upsert_slug_alias
  upsert_slug_alias-IsAcyclic old canonical aliases acyclic =
      let o = trim_space old in
      let c = trim_space canonical in
      elim (Bool-cases (is_empty o || is_empty c || str_eq o c)) [
        | inl ignored ↦ rw ignored acyclic
        | inr kept ↦ rw kept (
            after_insert-IsAcyclic o canonical aliases (answer (insert o)) acyclic
              (or_false_right (is_empty o) (is_empty c) (str_eq o c) kept))
      ]

  upsert_each-IsAcyclic :
      (canonical : String) (olds : List String) (aliases : Aliases)
      → IsAcyclic aliases
      → IsAcyclic (upsert_each answer canonical olds aliases).1
  unfolding upsert_each
  upsert_each-IsAcyclic canonical [] aliases acyclic =
      delete_slug_alias-IsAcyclic canonical aliases acyclic
  upsert_each-IsAcyclic canonical (old ∷ olds) aliases acyclic =
      let kept = upsert_slug_alias-IsAcyclic old canonical aliases acyclic in
      elim (Option-cases (upsert_slug_alias answer old canonical aliases).0) [
        | inl well ↦
            rw (well, upsert_each)
              (upsert_each-IsAcyclic canonical olds
                (upsert_slug_alias answer old canonical aliases).1 kept)
        | inr (e, failed) ↦ rw (failed, upsert_each) kept
      ]

  upsert_slug_aliases-IsAcyclic :
      (canonical : String) (olds : List String) (aliases : Aliases)
      → IsAcyclic aliases
      → IsAcyclic (upsert_slug_aliases answer canonical olds aliases).1
  unfolding upsert_slug_aliases
  upsert_slug_aliases-IsAcyclic canonical olds aliases acyclic =
      elim (Bool-cases (is_empty (trim_space canonical))) [
        | inl empty ↦ rw empty acyclic
        | inr text ↦ rw text (upsert_each-IsAcyclic (trim_space canonical) olds aliases acyclic)
      ]

-- A call of the repository on the aliases.
pub data AliasCall : Type 0 where
  upsert : String → String → AliasCall
  upsert_all : String → List String → AliasCall
  remove : String → AliasCall

unfoldable pub apply : (Statement → Option Error) → AliasCall → Aliases → Aliases
apply answer (upsert old canonical) aliases = (upsert_slug_alias answer old canonical aliases).1
apply answer (upsert_all canonical olds) aliases =
    (upsert_slug_aliases answer canonical olds aliases).1
apply answer (remove old) aliases = (delete_slug_alias answer old aliases).1

unfoldable pub run : (Statement → Option Error) → List AliasCall → Aliases → Aliases
run answer [] aliases = aliases
run answer (call ∷ calls) aliases = run answer calls (apply answer call aliases)

-- From a table whose aliases have no cycle, whatever calls run in whatever order, and whatever
-- inserts the database refuses, the aliases have no cycle, where it refuses no delete: from every
-- slug, following the aliases comes to one that is no alias.
pub alias_run-IsAcyclic :
    (answer : Statement → Option Error)
    → ((s : String) → answer (delete s) ≡ none)
    → (calls : List AliasCall) (aliases : Aliases) → IsAcyclic aliases
    → IsAcyclic (run answer calls aliases)
unfolding run apply
alias_run-IsAcyclic answer deletes [] aliases acyclic = acyclic
alias_run-IsAcyclic answer deletes (upsert old canonical ∷ calls) aliases acyclic =
    alias_run-IsAcyclic answer deletes calls (upsert_slug_alias answer old canonical aliases).1
      (upsert_slug_alias-IsAcyclic answer deletes old canonical aliases acyclic)
alias_run-IsAcyclic answer deletes (upsert_all canonical olds ∷ calls) aliases acyclic =
    alias_run-IsAcyclic answer deletes calls (upsert_slug_aliases answer canonical olds aliases).1
      (upsert_slug_aliases-IsAcyclic answer deletes canonical olds aliases acyclic)
alias_run-IsAcyclic answer deletes (remove old ∷ calls) aliases acyclic =
    alias_run-IsAcyclic answer deletes calls (delete_slug_alias answer old aliases).1
      (delete_slug_alias-IsAcyclic answer deletes old aliases acyclic)
