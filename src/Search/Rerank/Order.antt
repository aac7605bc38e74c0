-- ===== src/Search/Rerank/Order.antt =====
-- Which results stand in the order of the cross-encoder.
use mathlib.Core.Path.{subst}
use app_catalogo.Common.{
  String, ◌≡◌, refl, sym, ap, ◌∙◌, ◌⊎◌, Option, none, some, List, [], ◌∷◌, ◌++◌, str_eq, eq_iff,
  arith, IsIn, Bool-cases, Option-cases, inl, inr,
}
use app_catalogo.Search.Rerank.{SearchResult, Reranked, by_id, ordered, ids, named}

by_id_finds :
    (id : String) (top : List SearchResult)
    → IsIn id (ids top)
    → (r : SearchResult) × (by_id id top ≡ some r)
unfolding by_id
by_id_finds id [] h = absurd h
by_id_finds id (s ∷ top) (inl here) = elim (Option-cases (by_id id top)) [
  | inl missing ↦ (s, rw (missing, by_id, (eq_iff s.id id).1 (sym here)) refl)
  | inr (r, found) ↦ (r, rw (found, by_id) refl)
]
by_id_finds id (s ∷ top) (inr later) =
    let (r, found) = by_id_finds id top later in (r, rw (found, by_id) refl)

by_id-id :
    (id : String) (top : List SearchResult) (r : SearchResult) → by_id id top ≡ some r → r.id ≡ id
unfolding by_id
by_id-id id [] r h = cc
by_id-id id (s ∷ top) r h = ground (arith, by_id-id id top r, eq_iff s.id id)

pub IsIn-append_left : (x : String) (xs ys : List String) → IsIn x xs → IsIn x (xs ++ ys)
IsIn-append_left x [] ys h = absurd h
IsIn-append_left x (y ∷ xs) ys (inl here) = inl here
IsIn-append_left x (y ∷ xs) ys (inr later) = inr (IsIn-append_left x xs ys later)

pub IsIn-append_right : (x : String) (xs ys : List String) → IsIn x ys → IsIn x (xs ++ ys)
IsIn-append_right x [] ys h = h
IsIn-append_right x (y ∷ xs) ys h = inr (IsIn-append_right x xs ys h)

pub IsIn-append_cases :
    (x : String) (xs ys : List String) → IsIn x (xs ++ ys) → IsIn x xs ⊎ IsIn x ys
IsIn-append_cases x [] ys h = inr h
IsIn-append_cases x (y ∷ xs) ys (inl here) = inl (inl here)
IsIn-append_cases x (y ∷ xs) ys (inr later) = elim (IsIn-append_cases x xs ys later) [
  | inl h ↦ inl (inr h)
  | inr h ↦ inr h
]

pub ids-append : (xs ys : List SearchResult) → ids (xs ++ ys) ≡ ids xs ++ ids ys
ids-append [] ys = refl
ids-append (r ∷ xs) ys = ap (λ l. r.id ∷ l) (ids-append xs ys)

by_id_sound :
    (id : String) (top : List SearchResult) (r : SearchResult)
    → by_id id top ≡ some r
    → IsIn id (ids top)
unfolding by_id
by_id_sound id [] r h = cc
by_id_sound id (s ∷ top) r h = elim (Option-cases (by_id id top)) [
  | inr (x, found) ↦ inr (by_id_sound id top x found)
  | inl missing ↦ elim (Bool-cases (str_eq s.id id)) [
    | inl here ↦ inl (sym ((eq_iff s.id id).0 here))
    | inr other ↦
        let nothing : ◌≡◌ {A = Option SearchResult} none (some r) =
          rw (missing, by_id, other) at h in
        absurd (cc nothing)
  ]
]

pub ordered_sound :
    (top : List SearchResult) (reranked : List Reranked) (id : String)
    → IsIn id (ids (ordered top reranked))
    → IsIn id (ids top)
unfolding ordered
ordered_sound top [] id h = absurd h
ordered_sound top (rr ∷ reranked) id h = elim (Option-cases (by_id rr.id top)) [
  | inl missing ↦ ordered_sound top reranked id (rw (missing, ordered) at h)
  | inr (r, found) ↦
      let split : IsIn id (r.id ∷ ids (ordered top reranked)) = rw (found, ordered) at h in
      elim split [
        | inl here ↦
            subst (λ i. IsIn i (ids top)) (sym (here ∙ by_id-id rr.id top r found))
              (by_id_sound rr.id top r found)
        | inr later ↦ ordered_sound top reranked id later
      ]
]

pub ordered_complete :
    (top : List SearchResult) (reranked : List Reranked) (id : String)
    → IsIn id (ids top)
    → IsIn id (named reranked)
    → IsIn id (ids (ordered top reranked))
unfolding ordered
ordered_complete top [] id h k = absurd k
ordered_complete top (rr ∷ reranked) id h (inl here) =
    let (r, found) = by_id_finds rr.id top (subst (λ i. IsIn i (ids top)) here h) in
    rw (found, ordered) (inl (here ∙ sym (by_id-id rr.id top r found)))
ordered_complete top (rr ∷ reranked) id h (inr later) =
    let rest = ordered_complete top reranked id h later in
    elim (Option-cases (by_id rr.id top)) [
      | inl missing ↦ rw (missing, ordered) rest
      | inr (r, found) ↦ rw (found, ordered) (inr rest)
    ]
