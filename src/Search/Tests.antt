-- ===== src/Search/Tests.antt =====
-- The search on concrete requests and answers.
use app_catalogo.Common.{
  ℕ, String, ◌≡◌, refl, true, false, none, some, List, [], ◌∷◌, ◌==◌, ◌⊎◌, inl, inr, if◌then◌else◌,
}
use app_catalogo.Common.Go.{Result, ok, err, Error, message}
use app_catalogo.Common.Int.{pos, negsuc}
use app_catalogo.Query.{Unicode}
use app_catalogo.Search.Request.{SearchRequest}
use app_catalogo.Search.Vectors.{
  SearchVectors, generate_search_vectors, returned, on_first_get, on_generated, on_set_nx,
  on_second_get,
}
use app_catalogo.Search.Vectors.Converge.{run, advance, step, all_asking, semantic_vectors_agree}
use app_catalogo.Search.Rerank.{SearchResult, Reranked}
use app_catalogo.Search.Pipeline.{Found, Repository, Environment, search}
use app_catalogo.Search.Pipeline.Fallback.{Succeeds, search_falls_back}

abbrev request : SearchRequest ℕ
request = record { q = "x"; filters = 0; page = negsuc 0; per_page = pos 500 }

-- Two calls whose encoder draws different texts.
abbrev drawn : ℕ → Result Error String
drawn i = if i == 0 then ok "h0" else ok "h1"

abbrev query_vec : ℕ → Result Error String
query_vec i = ok "q"

abbrev first_drawn : SearchVectors
first_drawn = record { query = "q"; hyde = "h1" }

abbrev schedule : List ℕ
schedule = 0 ∷ 1 ∷ 0 ∷ 1 ∷ 1 ∷ 0 ∷ 0 ∷ []

call_returns :
    (i : ℕ)
    → (i ≡ 0) ⊎ (i ≡ 1)
    → (run (λ k. generate_search_vectors (query_vec k) (drawn k)) schedule (all_asking none)).phase
        i
      ≡ returned first_drawn
unfolding run advance step generate_search_vectors on_first_get on_generated on_set_nx on_second_get
call_returns i (inl e) = rw e refl
call_returns i (inr e) = rw e refl

semantic_vectors_agree_example : first_drawn ≡ first_drawn
semantic_vectors_agree_example =
    semantic_vectors_agree query_vec drawn schedule none 0 1 first_drawn first_drawn tt
      (call_returns 0 (inl refl)) (call_returns 1 (inr refl))

abbrev result : String → SearchResult
result id = record { id = id; title = id; short_desc = ""; rank = "0.5"; headline = "" }

abbrev results : List SearchResult
results = result "a" ∷ result "b" ∷ []

abbrev swap : List SearchResult → Result Error (List Reranked)
swap docs = ok (record { id = "b"; score = "0.9" } ∷ record { id = "a"; score = "0.1" } ∷ [])

abbrev found : Found
found = record { results = results; total = pos 2 }

abbrev unicode : Unicode
unicode = record {
  to_lower = λ s. s;
  nfd = λ s. s;
  is_mark = λ c. false;
  is_letter_or_digit = λ c. true;
}

-- Full text works, the hybrid searches fail.
abbrev repository : Repository ℕ
repository = record {
  search = λ req. ok found;
  search_hybrid = λ req v. err (message "timeout");
  search_hybrid_with_hyde = λ req v h. err (message "timeout");
}

abbrev without_hyde : Environment ℕ
without_hyde = record {
  repository = repository;
  unicode = unicode;
  vectors = some (λ q. ok (record { query = "q"; hyde = "" }));
  reranker = some (λ q. swap);
}

abbrev hyde_vectors : String → Result Error SearchVectors
hyde_vectors q = ok first_drawn

abbrev with_hyde_env : Environment ℕ
with_hyde_env = record without_hyde { vectors = some hyde_vectors }

search_falls_back_example : Succeeds (search without_hyde none request)
search_falls_back_example = search_falls_back without_hyde none request (λ q. refl) (found, refl)
