-- ===== src/Recommend.antt =====
-- internal/services/recommendation_service.go: the recommendations for a citizen and for anyone.
-- The cache, the repository and the sort of the package slices are the record `Surroundings`.
pub mod Score
pub mod Best
pub mod Tests
use app_catalogo.Common.{
  ℕ, suc, ◌*◌, min, String, Bool, true, false, Option, none, some, List, [], ◌∷◌, ◌++◌, map, take,
  length, leb, str_eq, if◌then◌else◌,
}
use app_catalogo.Common.Int.{ℤ, pos, negsuc, ltb_ℤ}
use app_catalogo.Common.Go.{Result, ok, err, Error, wrap}
use app_catalogo.Common.Maps.{lookup}
use app_catalogo.Common.Text.{is_empty}
use app_catalogo.Catalog.{CatalogItem}
use app_catalogo.Recommend.Score.{
  Floats, Texts, ScoringWeights, CitizenProfile, type_weights, round2, score_item,
}

pub record RecommendationRequest : Type 0 where
  pub types : List String
  pub limit : ℤ
  pub context : String
  pub cluster_hint : String

-- `Normalize`
unfoldable pub normalize : RecommendationRequest → RecommendationRequest
normalize req = record req {
  limit =
      if ltb_ℤ req.limit (pos 1)
      then pos 10
      else if ltb_ℤ (pos 50) req.limit
      then pos 50
      else req.limit;
  context = if is_empty req.context then "homepage" else req.context;
}

-- The limit of a request that was normalised.
abbrev pub natural : ℤ → ℕ
natural (pos n) = n
natural (negsuc n) = 0

pub record Candidate : Type 0 where
  pub id : String
  pub item : CatalogItem

module _ (n : Floats) where
  pub record RankedItem : Type 0 where
    pub id : String
    pub item : CatalogItem
    pub score : n.F
    pub score_breakdown : List (String × n.F)

  pub record RecommendationResponse : Type 0 where
    pub items : List RankedItem
    pub context : String
    pub personalized : Bool

  pub record Surroundings : Type 0 where
    pub texts : Texts
    pub weights : ScoringWeights n
    -- what the cache has for a citizen, or for anyone, and a request
    pub cached : Option String → RecommendationRequest → Option RecommendationResponse
    -- `GetCandidates` and `GetJourneyBoosts`
    pub candidates : List String → ℕ → Result Error (List Candidate)
    pub boosts : List String → Result Error (List (String × n.F))
    -- slices.SortFunc with the larger score first
    pub sort : List RankedItem → List RankedItem

  unfoldable pub rank_one :
      Surroundings → Option CitizenProfile → RecommendationRequest → Candidate → RankedItem
  rank_one s profile req c =
      let (score, breakdown) =
        score_item n s.texts s.weights c.item profile (type_weights n req.context) in
      record { id = c.id; item = c.item; score = score; score_breakdown = breakdown }

  -- `rankCandidates`
  unfoldable pub rank_candidates :
      Surroundings
      → List Candidate
      → Option CitizenProfile
      → RecommendationRequest
      → List RankedItem
  unfolding rank_one
  rank_candidates s items profile req = s.sort (map (rank_one s profile req) items)

  unfoldable pub boost_one : List (String × n.F) → RankedItem → RankedItem
  boost_one boosts r = elim (lookup r.id boosts) [
    | none ↦ r
    | some boost ↦ record r {
      score = round2 n (n.add r.score boost);
      score_breakdown = r.score_breakdown ++ ("journey", round2 n boost) ∷ [];
    }
  ]

  unfoldable pub with_boosts :
      Surroundings → List RankedItem → Result Error (List (String × n.F)) → List RankedItem
  unfolding boost_one
  with_boosts s ranked (err e) = ranked
  with_boosts s ranked (ok []) = ranked
  with_boosts s ranked (ok (b ∷ boosts)) = s.sort (map (boost_one (b ∷ boosts)) ranked)

  abbrev pub ids : List RankedItem → List String
  ids = map (λ (r : RankedItem). r.id)

  -- `applyJourneyBoosts`
  unfoldable pub apply_journey_boosts : Surroundings → List RankedItem → List RankedItem
  unfolding with_boosts
  apply_journey_boosts s [] = []
  apply_journey_boosts s (r ∷ ranked) =
      with_boosts s (r ∷ ranked) (s.boosts (ids (take 5 (r ∷ ranked))))

  -- The answer from what the repository gave.
  unfoldable pub respond :
      Surroundings
      → Option CitizenProfile
      → RecommendationRequest
      → Bool
      → Result Error (List Candidate)
      → Result Error RecommendationResponse
  unfolding rank_candidates apply_journey_boosts
  respond s profile req personalized (err e) = err (wrap "recommendation" e)
  respond s profile req personalized (ok candidates) =
      let ranked = apply_journey_boosts s (rank_candidates s candidates profile req) in
      ok (record {
        items = take (min (natural req.limit) (length ranked)) ranked;
        context = req.context;
        personalized = personalized;
      })

  unfoldable pub or_compute :
      Option RecommendationResponse
      → Result Error RecommendationResponse
      → Result Error RecommendationResponse
  or_compute (some cached) fresh = ok cached
  or_compute none fresh = fresh

  -- `Recommend`
  unfoldable pub recommend :
      Surroundings → CitizenProfile → RecommendationRequest → Result Error RecommendationResponse
  unfolding or_compute respond normalize
  recommend s profile raw =
      let req = normalize raw in
      or_compute (s.cached (some profile.cpf_hash) req)
        (respond s (some profile) req true (s.candidates req.types (natural req.limit * 5)))

  -- `RecommendAnonymous`
  unfoldable pub recommend_anonymous :
      Surroundings → RecommendationRequest → Result Error RecommendationResponse
  unfolding or_compute respond normalize
  recommend_anonymous s raw =
      let req = normalize raw in
      or_compute (s.cached none req)
        (respond s none req false (s.candidates req.types (natural req.limit * 3)))
