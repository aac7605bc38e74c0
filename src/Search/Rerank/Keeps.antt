-- ===== src/Search/Rerank/Keeps.antt =====
-- What the reranking keeps.
use mathlib.Core.Path.{subst}
use app_catalogo.Common.{
  ℕ, String, ◌≡◌, sym, ap, ◌∙◌, ◌⊎◌, ◌↔◌, List, [], ◌∷◌, ◌++◌, take, drop, IsIn, inl, inr,
  take-append-drop,
}
use app_catalogo.Common.Go.{Result, ok, err, Error}
use app_catalogo.Search.Rerank.{
  SearchResult, Reranked, reranker_top, ordered, apply_order, maybe_rerank, ids, named,
}
use app_catalogo.Search.Rerank.Order.{
  ordered_sound, ordered_complete, IsIn-append_left, IsIn-append_right, IsIn-append_cases,
  ids-append,
}

split_ids :
    (n : ℕ) (results : List SearchResult) (id : String)
    → IsIn id (ids results) ↔ (IsIn id (ids (take n results)) ⊎ IsIn id (ids (drop n results)))
split_ids n results id =
    let whole : ids results ≡ ids (take n results) ++ ids (drop n results) =
      ap ids (sym (take-append-drop n results)) ∙ ids-append (take n results) (drop n results) in
    (
      λ h.
          IsIn-append_cases id (ids (take n results)) (ids (drop n results))
            (subst (IsIn id) whole h),
      λ h. subst (IsIn id) (sym whole) (elim h [
        | inl first ↦ IsIn-append_left id (ids (take n results)) (ids (drop n results)) first
        | inr other ↦ IsIn-append_right id (ids (take n results)) (ids (drop n results)) other
      ]),
    )

-- The ids that the cross-encoder answers cover those of the first results, if it answers any.
abbrev pub Covers : List SearchResult → Result Error (List Reranked) → Type 0
Covers top (err e) = Unit
Covers top (ok reranked) = (id : String) → IsIn id (ids top) → IsIn id (named reranked)

apply_order_iff :
    (results : List SearchResult) (n : ℕ) (answer : Result Error (List Reranked)) (id : String)
    → Covers (take n results) answer
    → IsIn id (ids (apply_order results (take n results) (drop n results) answer))
      ↔ IsIn id (ids results)
unfolding apply_order
apply_order_iff results n (err e) id covers = (λ h. h, λ h. h)
apply_order_iff results n (ok []) id covers = (λ h. h, λ h. h)
apply_order_iff results n (ok (rr ∷ reranked)) id covers =
    let top = take n results in
    let rest = drop n results in
    let order = ordered top (rr ∷ reranked) in
    let whole = ids-append order rest in
    (
      λ h.
          (split_ids n results id).1
            (elim (IsIn-append_cases id (ids order) (ids rest) (subst (IsIn id) whole h)) [
              | inl first ↦ inl (ordered_sound top (rr ∷ reranked) id first)
              | inr other ↦ inr other
            ]),
      λ h. subst (IsIn id) (sym whole) (elim ((split_ids n results id).0 h) [
        | inl first ↦
            IsIn-append_left id (ids order) (ids rest)
              (ordered_complete top (rr ∷ reranked) id first (covers id first))
        | inr other ↦ IsIn-append_right id (ids order) (ids rest) other
      ]),
    )

-- Where the cross-encoder fails, or its answer covers the first twenty results, the reranking
-- neither loses a result nor makes one up.
pub rerank_same_ids :
    (rerank : List SearchResult → Result Error (List Reranked)) (results : List SearchResult)
    (id : String)
    → Covers (take reranker_top results) (rerank (take reranker_top results))
    → IsIn id (ids (maybe_rerank rerank results)) ↔ IsIn id (ids results)
unfolding maybe_rerank
rerank_same_ids rerank results id covers =
    apply_order_iff results reranker_top (rerank (take reranker_top results)) id covers
