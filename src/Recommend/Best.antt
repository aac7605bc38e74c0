-- ===== src/Recommend/Best.antt =====
-- Which of the candidates a recommendation gives.
use app_catalogo.Common.{ℕ, ◌≤◌, String, ◌≡◌, ◌↔◌, false, List, [], ◌∷◌, map, take, length, IsIn}
use app_catalogo.Common.Go.{Result, ok, Error}
use app_catalogo.Recommend.Score.{Floats}
use app_catalogo.Recommend.{Candidate, RankedItem, RecommendationResponse, ids}

module _ (n : Floats) where
  -- No item has a smaller score than one after it.
  abbrev pub Descends : List (RankedItem n) → Type 0
  Descends [] = Unit
  Descends (r ∷ ranked) =
      ((x : RankedItem n) → IsIn x ranked → n.less r.score x.score ≡ false) × Descends ranked

  -- The sort gives the items of its list and no others, as many as there were, by falling scores.
  pub record Sorts (sort : List (RankedItem n) → List (RankedItem n)) : Type 0 where
    pub same :
        (ranked : List (RankedItem n)) (r : RankedItem n) → IsIn r (sort ranked) ↔ IsIn r ranked
    pub same_length : (ranked : List (RankedItem n)) → length (sort ranked) ≡ length ranked
    pub descends : (ranked : List (RankedItem n)) → Descends (sort ranked)

  -- A ranking of the candidates: as many items, with their ids and no others, by falling scores.
  abbrev pub Ranks : List Candidate → List (RankedItem n) → Type 0
  Ranks candidates ranked =
      Descends ranked
      × (length ranked ≡ length candidates)
      × ((id : String)
          → IsIn id (ids n ranked) ↔ IsIn id (map (λ (c : Candidate). c.id) candidates))

  -- The response is the head of a ranking of the candidates.
  abbrev pub Best : ℕ → List Candidate → Result Error (RecommendationResponse n) → Type 0
  Best limit candidates answer =
      (resp : RecommendationResponse n) × (answer ≡ ok resp)
      × ((ranked : List (RankedItem n)) × Ranks candidates ranked
          × (resp.items ≡ take limit ranked))
      × (length resp.items ≤ 50)
