-- ===== src/Search/Pipeline/Fallback.antt =====
-- When a search succeeds although a part of the pipeline fails, and when it does not.
use app_catalogo.Common.{String, ◌≡◌, ◌≢◌, refl, inl, inr, false, Option, none, some, Bool-cases}
use app_catalogo.Common.Go.{Result, ok, err, Error, wrap}
use app_catalogo.Common.Text.{is_empty}
use app_catalogo.Search.Request.{SearchRequest, normalize}
use app_catalogo.Search.Vectors.{SearchVectors}
use app_catalogo.Search.Pipeline.{
  Found, Repository, Environment, SearchResponse, or_else, with_vectors, retrieve, expand_text,
  respond, search,
}

-- There are no vectors, or they come without HyDE.
abbrev pub NoHyde : Result Error SearchVectors → Type 0
NoHyde (err e) = Unit
NoHyde (ok v) = v.hyde ≡ ""

abbrev pub NeverHyde : Option (String → Result Error SearchVectors) → Type 0
NeverHyde none = Unit
NeverHyde (some vectors) = (q : String) → NoHyde (vectors q)

module _ {ℓ} {A : Type ℓ} where
  abbrev pub Succeeds : Result Error A → Type ℓ
  Succeeds r = (a : A) × (r ≡ ok a)

or_else-Succeeds : (r other : Result Error Found) → Succeeds other → Succeeds (or_else r other)
or_else-Succeeds (ok a) other h = (a, refl)
or_else-Succeeds (err e) other h = h

module _ {F : Type 0} where
  with_vectors-Succeeds :
      (repo : Repository F) (req : SearchRequest F) (v : Result Error SearchVectors)
      → NoHyde v
      → Succeeds (repo.search req)
      → Succeeds (with_vectors repo req v)
  unfolding with_vectors
  with_vectors-Succeeds repo req (err e) plain h = h
  with_vectors-Succeeds repo req (ok v) plain h =
      rw plain (or_else-Succeeds (repo.search_hybrid req v.query) (repo.search req) h)

  retrieve-Succeeds :
      (env : Environment F) (original : String) (req : SearchRequest F)
      (vectors : Option (String → Result Error SearchVectors))
      → env.vectors ≡ vectors
      → NeverHyde vectors
      → Succeeds (env.repository.search req)
      → Succeeds (retrieve env original req)
  unfolding retrieve
  retrieve-Succeeds env original req none e plain h = elim (Bool-cases (is_empty original)) [
    | inl empty ↦ rw empty h
    | inr text ↦ rw (text, e) h
  ]
  retrieve-Succeeds env original req (some vectors) e plain h =
      elim (Bool-cases (is_empty original)) [
        | inl empty ↦ rw empty h
        | inr text ↦
            rw (text, e)
              (with_vectors-Succeeds env.repository req (vectors original) (plain original) h)
      ]

  respond-Succeeds :
      (env : Environment F) (original : String) (req : SearchRequest F) (r : Result Error Found)
      → Succeeds r
      → Succeeds (respond env original req r)
  unfolding respond
  respond-Succeeds env original req (ok found) h = (_, refl)
  respond-Succeeds env original req (err e) (a, h) = absurd (cc h)

  -- A search without HyDE vectors succeeds whenever the full-text search of its request does,
  -- whatever the encoder, the hybrid search, the cross-encoder and the cache do.
  pub search_falls_back :
      (env : Environment F) (cached : Option SearchResponse) (request : SearchRequest F)
      → NeverHyde env.vectors
      → Succeeds (env.repository.search (expand_text env (normalize request)))
      → Succeeds (search env cached request)
  unfolding search
  search_falls_back env (some response) request plain h = (response, refl)
  search_falls_back env none request plain h =
      let req = normalize request in
      respond-Succeeds env req.q (expand_text env req) (retrieve env req.q (expand_text env req))
        (retrieve-Succeeds env req.q (expand_text env req) env.vectors refl plain h)

  with_hyde_fails :
      (repo : Repository F) (req : SearchRequest F) (v : SearchVectors) (e first : Error)
      → v.hyde ≢ ""
      → repo.search_hybrid_with_hyde req v.query v.hyde ≡ err first
      → repo.search_hybrid req v.query ≡ err e
      → with_vectors repo req (ok v) ≡ err e
  unfolding with_vectors
  with_hyde_fails repo req v e first hyde h k = rw (filled v.hyde hyde, h, k) refl
    where
      filled : (s : String) → s ≢ "" → is_empty s ≡ false
      filled String.[] n = absurd (n refl)
      filled (String.◌∷◌ c s) n = refl

  -- With HyDE vectors the full-text search is no fallback: where both hybrid searches fail the
  -- search fails, whatever the full-text search would find.
  pub hyde_does_not_fall_back :
      (env : Environment F) (request : SearchRequest F)
      (vectors : String → Result Error SearchVectors) (v : SearchVectors) (e first : Error)
      → env.vectors ≡ some vectors
      → is_empty request.q ≡ false
      → vectors request.q ≡ ok v
      → v.hyde ≢ ""
      → env.repository.search_hybrid_with_hyde (expand_text env (normalize request)) v.query v.hyde
        ≡ err first
      → env.repository.search_hybrid (expand_text env (normalize request)) v.query ≡ err e
      → search env none request ≡ err (wrap "search" e)
  unfolding search retrieve normalize
  hyde_does_not_fall_back env request vectors v e first given text got hyde h k =
      let failed =
        with_hyde_fails env.repository (expand_text env (normalize request)) v e first hyde h k in
      rw (text, given, got, failed) refl
