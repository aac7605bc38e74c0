-- ===== src/Search/Rerank.antt =====
-- `maybeRerank` of internal/services/search_service.go: the first results in the order of the
-- cross-encoder. A score is a text, which nothing compares.
pub mod Order
pub mod Keeps
use app_catalogo.Common.{
  ℕ, suc, ◌+◌, ◌≤◌, ◌<◌, String, ◌≡◌, ◌≢◌, refl, sym, ap, ◌∙◌, ◌⊎◌, Bool, true, false, Option, none,
  some, List, [], ◌∷◌, ◌++◌, map, length, take, drop, str_eq, eq_iff, arith, IsIn, All, Bool-cases,
  Option-cases, inl, inr, leb, ltb, if◌then◌else◌, take-append-drop,
}
use app_catalogo.Common.Go.{Result, ok, err, Error}

-- A result of the repository: its item's id and texts, and its rank.
pub record SearchResult : Type 0 where
  pub id : String
  pub title : String
  pub short_desc : String
  pub rank : String
  pub headline : String

-- An answer of the cross-encoder.
pub record Reranked : Type 0 where
  pub id : String
  pub score : String

abbrev pub reranker_top : ℕ
reranker_top = 20

-- The map byID, where a later result replaces an earlier one.
unfoldable pub by_id : String → List SearchResult → Option SearchResult
by_id id [] = none
by_id id (r ∷ results) = elim (by_id id results) [
  | some later ↦ some later
  | none ↦ if str_eq r.id id then some r else none
]

unfoldable pub ordered : List SearchResult → List Reranked → List SearchResult
ordered top [] = []
ordered top (rr ∷ reranked) = elim (by_id rr.id top) [
  | none ↦ ordered top reranked
  | some r ↦ record r { rank = rr.score } ∷ ordered top reranked
]

unfoldable pub apply_order :
    List SearchResult
    → List SearchResult
    → List SearchResult
    → Result Error (List Reranked)
    → List SearchResult
apply_order results top rest (err e) = results
apply_order results top rest (ok []) = results
apply_order results top rest (ok (rr ∷ reranked)) = ordered top (rr ∷ reranked) ++ rest

-- The function is what the cross-encoder returns for the documents of the first results.
unfoldable pub maybe_rerank :
    (List SearchResult → Result Error (List Reranked)) → List SearchResult → List SearchResult
unfolding apply_order
maybe_rerank rerank results =
    apply_order results (take reranker_top results) (drop reranker_top results)
      (rerank (take reranker_top results))

abbrev pub ids : List SearchResult → List String
ids = map (λ (r : SearchResult). r.id)

abbrev pub named : List Reranked → List String
named = map (λ (r : Reranked). r.id)
