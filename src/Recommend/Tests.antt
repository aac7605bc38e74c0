-- ===== src/Recommend/Tests.antt =====
-- Recommendations with numbers that count hundredths, and a sort by insertion.
use app_catalogo.Common.{
  ℕ, ◌+◌, ◌*◌, ◌/◌, String, none, some, List, [], ◌∷◌, ltb, ◌==◌, str_eq, if◌then◌else◌,
}
use app_catalogo.Common.Int.{pos}
use app_catalogo.Common.Go.{ok}
use app_catalogo.Sync.Mapping.{status_active}
use app_catalogo.Recommend.Score.{Floats, Texts, ScoringWeights, CitizenProfile, no_audience}
use app_catalogo.Recommend.{RecommendationRequest, natural, Candidate, RankedItem, Surroundings}
use app_catalogo.Recommend.Best.{Best}

abbrev hundredths : Floats
hundredths = record {
  F = ℕ;
  decimal = λ v. v;
  add = λ a b. a + b;
  mul = λ a b. a * b / 100;
  truncate = λ v. pos v;
  over_hundred = λ v. natural v;
  is_zero = λ v. v == 0;
  less = ltb;
}

abbrev Item : Type 0
Item = RankedItem hundredths

put_in : Item → List Item → List Item
put_in r [] = r ∷ []
put_in r (x ∷ ranked) =
    let rest = put_in r ranked in if ltb x.score r.score then r ∷ x ∷ ranked else x ∷ rest

sort : List Item → List Item
unfolding put_in
sort [] = []
sort (r ∷ ranked) = put_in r (sort ranked)

abbrev texts : Texts
texts = record {
  equal_fold = str_eq;
  to_lower = λ s. s;
  parse_audience = λ s. some (record no_audience { escolaridade = "superior" ∷ [] });
}

abbrev weights : ScoringWeights hundredths
weights = record {
  escolaridade = 25;
  renda_familiar = 20;
  localizacao = 20;
  acessibilidade = 15;
  faixa_etaria = 10;
  tipo_item = 10;
}

abbrev candidate : String → String → Candidate
candidate id item_type = record {
  id = id;
  item = record {
    external_id = id;
    source = "courses";
    item_type = item_type;
    title = id;
    description = "";
    short_desc = "";
    organization = "";
    url = "";
    image_url = "";
    target_audience = some "{}";
    bairros = [];
    modalidade = "online";
    status = status_active;
    tags = [];
    source_data = none;
    theme_slug = "";
    subtheme_slug = "";
    sici_code = "";
    valid_from = none;
    valid_until = none;
    source_updated_at = none;
  };
}

abbrev candidates : List Candidate
candidates = candidate "a" "job" ∷ candidate "b" "service" ∷ candidate "c" "course" ∷ []

abbrev surroundings : Surroundings hundredths
surroundings = record {
  texts = texts;
  weights = weights;
  cached = λ citizen req. none;
  candidates = λ types limit. ok candidates;
  boosts = λ ids. ok (("c", 15) ∷ []);
  sort = sort;
}

abbrev profile : CitizenProfile
profile = record {
  cpf_hash = "h";
  bairro = "Centro";
  escolaridade = "superior";
  renda_familiar = "";
  deficiencia = "";
  faixa_etaria = "";
}

abbrev request : RecommendationRequest
request = record { types = []; limit = pos 2; context = ""; cluster_hint = "" }
