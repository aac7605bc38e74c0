-- ===== src/Carta/Home/Snapshot.antt =====
-- What the home page lists after a synchronisation.
use app_catalogo.Common.{
  String, ◌≡◌, ◌≢◌, ◌↔◌, ◌⊎◌, inl, inr, refl, ap, Bool, true, false, ◌||◌, or_false, false_of_not,
  none, List, [], ◌∷◌, any, str_eq, eq_iff, arith, IsIn, IsIn-map, Bool-cases, length, leb,
}
use app_catalogo.Common.Int.{ℤ, ltb_ℤ, pos, negsuc}
use app_catalogo.Sync.Featured.{
  CartaHomeFeatured, normalize_home_featured, same_int, slugs, positions, IsDistinct,
}
use app_catalogo.Sync.Featured.Distinct.{normalize_home_featured-IsDistinct}
use app_catalogo.Carta.Home.{
  Replies, has_conflict, copy_from, replace_home_featured, comes_before, insert_featured,
  list_home_featured,
}

same_int_sound : (a b : ℤ) → same_int a b ≡ true → a ≡ b
unfolding same_int
same_int_sound (pos a) (pos b) h = let e : a ≡ b = grind arith in ap pos e
same_int_sound (pos a) (negsuc b) h = ground arith
same_int_sound (negsuc a) (pos b) h = ground arith
same_int_sound (negsuc a) (negsuc b) h = let e : a ≡ b = grind arith in ap negsuc e

no_clash :
    (i : CartaHomeFeatured) (items : List CartaHomeFeatured)
    → ¬ IsIn i.slug (slugs items)
    → ¬ IsIn i.position (positions items)
    → any (λ (j : CartaHomeFeatured). str_eq i.slug j.slug || same_int i.position j.position) items
      ≡ false
no_clash i [] s p = refl
no_clash i (j ∷ items) s p =
    let slug = false_of_not (str_eq i.slug j.slug) (λ h. s (inl ((eq_iff i.slug j.slug).0 h))) in
    let position =
      false_of_not (same_int i.position j.position)
        (λ h. p (inl (same_int_sound i.position j.position h))) in
    let rest = no_clash i items (λ h. s (inr h)) (λ h. p (inr h)) in rw (slug, position, rest) refl

no_conflict :
    (items : List CartaHomeFeatured)
    → IsDistinct (slugs items)
    → IsDistinct (positions items)
    → has_conflict items ≡ false
unfolding has_conflict
no_conflict [] s p = refl
no_conflict (i ∷ items) (new_slug, s) (new_position, p) =
    or_false
      (any (λ (j : CartaHomeFeatured). str_eq i.slug j.slug || same_int i.position j.position)
        items)
      (has_conflict items) (no_clash i items new_slug new_position) (no_conflict items s p)

-- Each position is less than those after it.
abbrev pub Ascends : List CartaHomeFeatured → Type 0
Ascends [] = Unit
Ascends (i ∷ items) =
    ((j : CartaHomeFeatured) → IsIn j items → ltb_ℤ i.position j.position ≡ true) × Ascends items

less_trans : (a b c : ℤ) → ltb_ℤ a b ≡ true → ltb_ℤ b c ≡ true → ltb_ℤ a c ≡ true
less_trans (pos a) (pos b) (pos c) h k = ground arith
less_trans (pos a) (pos b) (negsuc c) h k = ground arith
less_trans (pos a) (negsuc b) c h k = ground arith
less_trans (negsuc a) (pos b) (pos c) h k = ground arith
less_trans (negsuc a) (pos b) (negsuc c) h k = ground arith
less_trans (negsuc a) (negsuc b) (pos c) h k = ground arith
less_trans (negsuc a) (negsuc b) (negsuc c) h k = ground arith

less_or_greater : (a b : ℤ) → a ≢ b → ltb_ℤ a b ≡ false → ltb_ℤ b a ≡ true
unfolding same_int
less_or_greater a b apart h = elim (Bool-cases (ltb_ℤ b a)) [
  | inl greater ↦ greater
  | inr not_greater ↦ absurd (apart (same_int_sound a b (rw (h, not_greater) refl)))
]

module _ (text_before : String → String → Bool) where
  insert_iff :
      (i x : CartaHomeFeatured) (items : List CartaHomeFeatured)
      → IsIn x (insert_featured text_before i items) ↔ ((x ≡ i) ⊎ IsIn x items)
  unfolding insert_featured
  insert_iff i x [] = ((λ h. h), λ h. h)
  insert_iff i x (j ∷ items) =
      let (there, back) = insert_iff i x items in
      elim (Bool-cases (comes_before text_before i j)) [
        | inl first ↦ rw first ((λ h. h), λ h. h)
        | inr later ↦ rw later (
          (λ h. elim h [
            | inl e ↦ inr (inl e)
            | inr in_rest ↦ elim (there in_rest) [ inl e ↦ inl e | inr old ↦ inr (inr old) ]
          ]),
          λ h. elim h [
            | inl e ↦ inr (back (inl e))
            | inr (inl e) ↦ inl e
            | inr (inr old) ↦ inr (back (inr old))
          ],
        )
      ]

  list_iff :
      (x : CartaHomeFeatured) (items : List CartaHomeFeatured)
      → IsIn x (list_home_featured text_before items) ↔ IsIn x items
  unfolding list_home_featured
  list_iff x [] = ((λ h. h), λ h. h)
  list_iff x (i ∷ items) =
      let (there, back) = insert_iff i x (list_home_featured text_before items) in
      let (old_there, old_back) = list_iff x items in
      (
        (λ h. elim (there h) [ inl e ↦ inl e | inr old ↦ inr (old_there old) ]),
        λ h. elim h [ inl e ↦ back (inl e) | inr old ↦ back (inr (old_back old)) ],
      )

  -- Where the positions differ, they decide.
  comes_first :
      (i j : CartaHomeFeatured)
      → i.position ≢ j.position
      → comes_before text_before i j ≡ true
      → ltb_ℤ i.position j.position ≡ true
  comes_first i j apart h = elim (Bool-cases (ltb_ℤ i.position j.position)) [
    | inl less ↦ less
    | inr not_less ↦
        let greater = less_or_greater i.position j.position apart not_less in ground arith
  ]

  comes_later :
      (i j : CartaHomeFeatured)
      → i.position ≢ j.position
      → comes_before text_before i j ≡ false
      → ltb_ℤ j.position i.position ≡ true
  comes_later i j apart h = less_or_greater i.position j.position apart (ground arith)

  insert-Ascends :
      (i : CartaHomeFeatured) (items : List CartaHomeFeatured)
      → ((j : CartaHomeFeatured) → IsIn j items → i.position ≢ j.position)
      → Ascends items
      → Ascends (insert_featured text_before i items)
  unfolding insert_featured
  insert-Ascends i [] new h = ((λ j there. absurd there), tt)
  insert-Ascends i (j ∷ items) new (before, h) =
      let apart = new j (inl refl) in
      elim (Bool-cases (comes_before text_before i j)) [
        | inl first ↦
            let less = comes_first i j apart first in
            rw first (
              (λ x there. elim there [
                | inl e ↦ rw e less
                | inr later ↦ less_trans i.position j.position x.position less (before x later)
              ]),
              (before, h),
            )
        | inr later ↦ rw later (
          (λ x there. elim ((insert_iff i x items).0 there) [
            | inl e ↦ rw e (comes_later i j apart later)
            | inr old ↦ before x old
          ]),
          insert-Ascends i items (λ x there. new x (inr there)) h,
        )
      ]

  list-Ascends :
      (items : List CartaHomeFeatured)
      → IsDistinct (positions items)
      → Ascends (list_home_featured text_before items)
  unfolding list_home_featured
  list-Ascends [] p = tt
  list-Ascends (i ∷ items) (new, p) =
      insert-Ascends i (list_home_featured text_before items)
        (λ j there e.
          let old = (list_iff j items).0 there in
          new (rw e (IsIn-map (λ (x : CartaHomeFeatured). x.position) j items old)))
        (list-Ascends items p)

replaced_lem :
    (replies : Replies) (items before : List CartaHomeFeatured)
    → has_conflict items ≡ false
    → replies.begin ≡ none
    → replies.delete ≡ none
    → replies.copy ≡ none
    → replies.commit ≡ none
    → replace_home_featured replies items before ≡ (none, items)
unfolding replace_home_featured copy_from
replaced_lem replies items before clear begin delete copy commit =
    elim (Bool-cases (leb (length items) 0)) [
      | inl empty ↦ rw (begin, delete, empty, commit) refl
      | inr some_items ↦ rw (begin, delete, some_items, clear, copy, commit) refl
    ]

-- Whatever featured services the Carta sends, the snapshot of the normalised ones breaks neither of
-- the two unique keys of the table, so that a database that refuses nothing else stores it, and the
-- home page then lists exactly those services, by growing positions, whatever it listed before.
pub featured_snapshot :
    (text_before : String → String → Bool) (replies : Replies) (raw before : List CartaHomeFeatured)
    → replies.begin ≡ none
    → replies.delete ≡ none
    → replies.copy ≡ none
    → replies.commit ≡ none
    → (replace_home_featured replies (normalize_home_featured raw) before
        ≡ (none, normalize_home_featured raw))
      × Ascends (list_home_featured text_before (normalize_home_featured raw))
      × ((x : CartaHomeFeatured)
          → IsIn x (list_home_featured text_before (normalize_home_featured raw))
            ↔ IsIn x (normalize_home_featured raw))
featured_snapshot text_before replies raw before begin delete copy commit =
    let items = normalize_home_featured raw in
    let (slug, position, from) = normalize_home_featured-IsDistinct raw in
    (
      replaced_lem replies items before (no_conflict items slug position) begin delete copy commit,
      list-Ascends text_before items position,
      λ x. list_iff text_before x items,
    )
