-- ===== src/Search/Vectors.antt =====
-- internal/services/search_vectors.go: the vectors of a search, generated once for each text and
-- kept in Redis. An answer of the store or of the encoder is an argument of the step that waits
-- for it; the clients' vector literals are texts.
pub mod Converge
use app_catalogo.Common.{
  ℕ, suc, String, ◌≡◌, ◌≢◌, refl, Bool, true, false, not, Option, none, some, List, [], ◌∷◌, ◌==◌,
  if◌then◌else◌,
}
use app_catalogo.Common.Go.{Result, ok, err, Error, message, wrap}
use app_catalogo.Common.Text.{is_empty}

pub record SearchVectors : Type 0 where
  pub query : String
  pub hyde : String

unfoldable pub with_hyde : String → Result Error String → SearchVectors
with_hyde query_vec (err e) = record { query = query_vec; hyde = "" }
with_hyde query_vec (ok hyde) = record { query = query_vec; hyde = hyde }

-- `generateSearchVectors`, from the two goroutines' results.
unfoldable pub generate_search_vectors :
    Result Error String → Result Error String → Result Error SearchVectors
unfolding with_hyde
generate_search_vectors (err e) hyde = err (wrap "embedding da query" e)
generate_search_vectors (ok query_vec) hyde =
    if is_empty query_vec
    then err (message "embedding da query vazio")
    else ok (with_hyde query_vec hyde)

-- Where a call of `semanticVectors` is: before its first Get, generating, before SetNX, before the
-- Get of the winner, and at its return.
pub data Phase : Type 0 where
  asking generating : Phase
  storing : SearchVectors → Phase
  rereading : SearchVectors → Phase
  returned : SearchVectors → Phase
  gave_up : Error → Phase

-- A value of the cache that counts.
abbrev pub is_usable : SearchVectors → Bool
is_usable v = not (is_empty v.query)

unfoldable pub on_first_get : Result Error SearchVectors → Phase
on_first_get (err e) = generating
on_first_get (ok v) = if is_usable v then returned v else generating

unfoldable pub on_generated : Result Error SearchVectors → Phase
on_generated (err e) = gave_up e
on_generated (ok v) = storing v

unfoldable pub on_set_nx : Result Error Bool → SearchVectors → Phase
on_set_nx (err e) v = returned v
on_set_nx (ok true) v = returned v
on_set_nx (ok false) v = rereading v

unfoldable pub on_second_get : Result Error SearchVectors → SearchVectors → Phase
on_second_get (err e) v = returned v
on_second_get (ok w) v = if is_usable w then returned w else returned v

-- What the store and the encoder answer to one call.
pub record Answers : Type 0 where
  pub first_get : Result Error SearchVectors
  pub generated : Result Error SearchVectors
  pub set_nx : Result Error Bool
  pub second_get : Result Error SearchVectors

unfoldable pub follow : Answers → Phase → Phase
unfolding on_first_get on_generated on_set_nx on_second_get
follow a asking = on_first_get a.first_get
follow a generating = on_generated a.generated
follow a (storing v) = on_set_nx a.set_nx v
follow a (rereading v) = on_second_get a.second_get v
follow a (returned v) = returned v
follow a (gave_up e) = gave_up e

-- `semanticVectors`: four steps at most.
unfoldable pub semantic_vectors : Answers → Phase
unfolding follow
semantic_vectors a = follow a (follow a (follow a (follow a asking)))
