-- ===== src/Sync/Featured/Distinct.antt =====
-- That no service and no position is featured twice.
use mathlib.Core.Path.{subst}
use app_catalogo.Common.{
  String, ◌≡◌, refl, sym, ◌⊎◌, inl, inr, Bool, true, false, List, [], ◌∷◌, any, str_eq, eq_iff,
  arith, IsIn, Bool-cases, if◌then◌else◌, or_intro,
}
use app_catalogo.Common.Int.{ℤ, ltb_ℤ}
use app_catalogo.Common.Text.{is_empty, trim_space}
use app_catalogo.Sync.Featured.{
  CartaHomeFeatured, same_int, place, by_slug, free_positions, normalize_home_featured, slugs,
  positions, IsDistinct,
}

same_int_refl : (a : ℤ) → same_int a a ≡ true
unfolding same_int
same_int_refl a = ground arith

place-IsIn :
    (item : CartaHomeFeatured) (items : List CartaHomeFeatured) (s : String)
    → IsIn s (slugs (place item items))
    → (s ≡ item.slug) ⊎ IsIn s (slugs items)
unfolding place
place-IsIn item [] s (inl h) = inl h
place-IsIn item [] s (inr h) = absurd h
place-IsIn item (prev ∷ items) s h = elim (Bool-cases (str_eq prev.slug item.slug)) [
  | inl same ↦
      let e = (eq_iff prev.slug item.slug).0 same in
      replaced (ltb_ℤ item.position prev.position) e (rw same at h)
  | inr other ↦
      let split : IsIn s (prev.slug ∷ slugs (place item items)) = rw other at h in
      elim split [
        | inl here ↦ inr (inl here)
        | inr later ↦ elim (place-IsIn item items s later) [ inl e ↦ inl e | inr i ↦ inr (inr i) ]
      ]
]
  where
    replaced :
        (b : Bool)
        → prev.slug ≡ item.slug
        → IsIn s (slugs ((if b then item else prev) ∷ items))
        → (s ≡ item.slug) ⊎ IsIn s (slugs (prev ∷ items))
    replaced true e (inl here) = inl here
    replaced false e (inl here) = inr (inl here)
    replaced true e (inr later) = inr (inr later)
    replaced false e (inr later) = inr (inr later)

place-IsDistinct :
    (item : CartaHomeFeatured) (items : List CartaHomeFeatured)
    → IsDistinct (slugs items)
    → IsDistinct (slugs (place item items))
unfolding place
place-IsDistinct item [] h = ((λ i. i), tt)
place-IsDistinct item (prev ∷ items) (new, h) = elim (Bool-cases (str_eq prev.slug item.slug)) [
  | inl same ↦
      rw same (replaced (ltb_ℤ item.position prev.position) ((eq_iff prev.slug item.slug).0 same))
  | inr other ↦ rw other (
    λ i. elim (place-IsIn item items prev.slug i) [
      | inl e ↦ absurd (cc ((eq_iff prev.slug item.slug).1 e, other))
      | inr j ↦ new j
    ],
    place-IsDistinct item items h,
  )
]
  where
    replaced :
        (b : Bool) → prev.slug ≡ item.slug → IsDistinct (slugs ((if b then item else prev) ∷ items))
    replaced true e = ((λ i. new (subst (λ s. IsIn s (slugs items)) (sym e) i)), h)
    replaced false e = (new, h)

by_slug-IsDistinct :
    (raw items : List CartaHomeFeatured)
    → IsDistinct (slugs items)
    → IsDistinct (slugs (by_slug raw items))
unfolding by_slug
by_slug-IsDistinct [] items h = h
by_slug-IsDistinct (item ∷ raw) items h = elim (Bool-cases (is_empty (trim_space item.slug))) [
  | inl empty ↦ rw empty (by_slug-IsDistinct raw items h)
  | inr some_slug ↦
      let placed = record item { slug = trim_space item.slug } in
      rw some_slug (by_slug-IsDistinct raw (place placed items) (place-IsDistinct placed items h))
]

-- The slug is that of one of the items, without the spaces around it, and is not empty.
abbrev pub FromRaw : List CartaHomeFeatured → String → Type 0
FromRaw [] s = ⊥
FromRaw (item ∷ raw) s = ((s ≡ trim_space item.slug) × (is_empty s ≡ false)) ⊎ FromRaw raw s

by_slug_from :
    (raw items : List CartaHomeFeatured) (s : String)
    → IsIn s (slugs (by_slug raw items))
    → FromRaw raw s ⊎ IsIn s (slugs items)
unfolding by_slug
by_slug_from [] items s h = inr h
by_slug_from (item ∷ raw) items s h = elim (Bool-cases (is_empty (trim_space item.slug))) [
  | inl empty ↦ elim (by_slug_from raw items s (rw empty at h)) [
    | inl found ↦ inl (inr found)
    | inr old ↦ inr old
  ]
  | inr some_slug ↦
      let placed = record item { slug = trim_space item.slug } in
      elim (by_slug_from raw (place placed items) s (rw some_slug at h)) [
        | inl found ↦ inl (inr found)
        | inr i ↦ elim (place-IsIn placed items s i) [
          | inl e ↦ inl (inl (e, subst (λ x. is_empty x ≡ false) (sym e) some_slug))
          | inr old ↦ inr old
        ]
      ]
]

free_slug :
    (seen : List ℤ) (items : List CartaHomeFeatured) (s : String)
    → IsIn s (slugs (free_positions seen items))
    → IsIn s (slugs items)
unfolding free_positions
free_slug seen [] s h = h
free_slug seen (item ∷ items) s h = elim (Bool-cases (any (same_int item.position) seen)) [
  | inl used ↦ inr (free_slug seen items s (rw used at h))
  | inr free ↦
      let split : IsIn s (item.slug ∷ slugs (free_positions (item.position ∷ seen) items)) =
        rw free at h in
      elim split [
        | inl here ↦ inl here
        | inr later ↦ inr (free_slug (item.position ∷ seen) items s later)
      ]
]

free_slugs-IsDistinct :
    (seen : List ℤ) (items : List CartaHomeFeatured)
    → IsDistinct (slugs items)
    → IsDistinct (slugs (free_positions seen items))
unfolding free_positions
free_slugs-IsDistinct seen [] h = tt
free_slugs-IsDistinct seen (item ∷ items) (new, h) =
    elim (Bool-cases (any (same_int item.position) seen)) [
      | inl used ↦ rw used (free_slugs-IsDistinct seen items h)
      | inr free ↦ rw free (
        λ i. new (free_slug (item.position ∷ seen) items item.slug i),
        free_slugs-IsDistinct (item.position ∷ seen) items h,
      )
    ]

any_of_in : (x : ℤ) (xs : List ℤ) → IsIn x xs → any (same_int x) xs ≡ true
any_of_in x [] h = absurd h
any_of_in x (y ∷ xs) (inl e) =
    or_intro (same_int x y) (any (same_int x) xs)
      (inl (subst (λ z. same_int x z ≡ true) e (same_int_refl x)))
any_of_in x (y ∷ xs) (inr later) =
    or_intro (same_int x y) (any (same_int x) xs) (inr (any_of_in x xs later))

-- A kept position was not taken before.
free_new :
    (seen : List ℤ) (items : List CartaHomeFeatured) (x : ℤ)
    → IsIn x (positions (free_positions seen items))
    → ¬ IsIn x seen
unfolding free_positions
free_new seen [] x h k = absurd h
free_new seen (item ∷ items) x h k = elim (Bool-cases (any (same_int item.position) seen)) [
  | inl used ↦ free_new seen items x (rw used at h) k
  | inr free ↦
      let split : IsIn x (item.position ∷ positions (free_positions (item.position ∷ seen) items)) =
        rw free at h in
      elim split [
        | inl here ↦ cc (any_of_in item.position seen (subst (λ z. IsIn z seen) here k), free)
        | inr later ↦ free_new (item.position ∷ seen) items x later (inr k)
      ]
]

free_positions-IsDistinct :
    (seen : List ℤ) (items : List CartaHomeFeatured)
    → IsDistinct (positions (free_positions seen items))
unfolding free_positions
free_positions-IsDistinct seen [] = tt
free_positions-IsDistinct seen (item ∷ items) =
    elim (Bool-cases (any (same_int item.position) seen)) [
      | inl used ↦ rw used (free_positions-IsDistinct seen items)
      | inr free ↦ rw free (
        λ i. free_new (item.position ∷ seen) items item.position i (inl refl),
        free_positions-IsDistinct (item.position ∷ seen) items,
      )
    ]

-- Whatever the service of the Carta sends, the featured services that are stored have distinct
-- slugs and distinct positions, and each slug is that of an item sent, without spaces around it and
-- not empty.
pub normalize_home_featured-IsDistinct :
    (raw : List CartaHomeFeatured)
    → IsDistinct (slugs (normalize_home_featured raw))
      × IsDistinct (positions (normalize_home_featured raw))
      × ((s : String) → IsIn s (slugs (normalize_home_featured raw)) → FromRaw raw s)
unfolding normalize_home_featured
normalize_home_featured-IsDistinct raw = (
  free_slugs-IsDistinct [] (by_slug raw []) (by_slug-IsDistinct raw [] tt),
  free_positions-IsDistinct [] (by_slug raw []),
  λ s h. elim (by_slug_from raw [] s (free_slug [] (by_slug raw []) s h)) [
    | inl found ↦ found
    | inr none_there ↦ absurd none_there
  ],
)
