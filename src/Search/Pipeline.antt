-- ===== src/Search/Pipeline.antt =====
-- The pipeline of `Search` of internal/services/search_service.go. The repository's searches, the
-- vectors, the reranker and the cache are answers of the environment.
pub mod Fallback
use app_catalogo.Common.{
  ℕ, String, Bool, true, false, not, ◌&&◌, Option, none, some, List, [], ◌∷◌, length, ltb, ◌≡◌,
  refl, if◌then◌else◌,
}
use app_catalogo.Common.Go.{Result, ok, err, Error, wrap}
use app_catalogo.Common.Int.{ℤ}
use app_catalogo.Common.Text.{is_empty}
use app_catalogo.Query.{Unicode, expand}
use app_catalogo.Query.Rules.{synonym_rules}
use app_catalogo.Search.Request.{SearchRequest, normalize}
use app_catalogo.Search.Vectors.{SearchVectors}
use app_catalogo.Search.Rerank.{SearchResult, Reranked, maybe_rerank}

pub record Found : Type 0 where
  pub results : List SearchResult
  pub total : ℤ

-- The searches of the repository: full text, with the query's vector, and with the HyDE vector too.
pub record Repository (F : Type 0) : Type 0 where
  pub search : SearchRequest F → Result Error Found
  pub search_hybrid : SearchRequest F → String → Result Error Found
  pub search_hybrid_with_hyde : SearchRequest F → String → String → Result Error Found

-- The services around a search; `none` is nil.
pub record Environment (F : Type 0) : Type 0 where
  pub repository : Repository F
  pub unicode : Unicode
  -- what `semanticVectors` returns for a text, if an encoder is configured
  pub vectors : Option (String → Result Error SearchVectors)
  -- what the cross-encoder returns, if it is configured
  pub reranker : Option (String → List SearchResult → Result Error (List Reranked))

pub record SearchResponse : Type 0 where
  pub total : ℤ
  pub page : ℤ
  pub per_page : ℤ
  pub items : List SearchResult

-- The result, or that of another search where it is an error.
abbrev pub or_else : Result Error Found → Result Error Found → Result Error Found
or_else (ok r) other = ok r
or_else (err e) other = other

module _ {F : Type 0} where
  -- The switch on the vectors.
  unfoldable pub with_vectors :
      Repository F → SearchRequest F → Result Error SearchVectors → Result Error Found
  with_vectors repo req (err e) = repo.search req
  with_vectors repo req (ok v) =
      if is_empty v.hyde
      then or_else (repo.search_hybrid req v.query) (repo.search req)
      else or_else (repo.search_hybrid_with_hyde req v.query v.hyde)
          (repo.search_hybrid req v.query)

  -- The main search, of a request whose text is expanded.
  unfoldable pub retrieve : Environment F → String → SearchRequest F → Result Error Found
  unfolding with_vectors
  retrieve env original req =
      if is_empty original then env.repository.search req else elim env.vectors [
        | none ↦ env.repository.search req
        | some vectors ↦ with_vectors env.repository req (vectors original)
      ]

  unfoldable pub expand_text : Environment F → SearchRequest F → SearchRequest F
  expand_text env req =
      if is_empty req.q then req else record req { q = expand env.unicode synonym_rules req.q }

  unfoldable pub rerank_found : Environment F → String → Found → List SearchResult
  rerank_found env original found = elim env.reranker [
    | none ↦ found.results
    | some rerank ↦
        if not (is_empty original) && ltb 1 (length found.results)
        then maybe_rerank (rerank original) found.results
        else found.results
  ]

  unfoldable pub respond :
      Environment F → String → SearchRequest F → Result Error Found → Result Error SearchResponse
  unfolding rerank_found
  respond env original req (err e) = err (wrap "search" e)
  respond env original req (ok found) = ok (record {
    total = found.total;
    page = req.page;
    per_page = req.per_page;
    items = rerank_found env original found;
  })

  -- `Search`, with what the cache holds for the request, if anything.
  unfoldable pub search :
      Environment F → Option SearchResponse → SearchRequest F → Result Error SearchResponse
  unfolding retrieve respond expand_text
  search env (some cached) request = ok cached
  search env none request =
      let req = normalize request in
      respond env req.q (expand_text env req) (retrieve env req.q (expand_text env req))
