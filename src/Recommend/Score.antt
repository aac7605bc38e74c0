-- ===== src/Recommend/Score.antt =====
-- The score of an item. Numbers of the type float64 and their operations are the record `Floats`,
-- where `decimal` gives a literal by its hundredths.
use app_catalogo.Common.{
  ℕ, String, Bool, ◌||◌, Option, none, some, List, [], ◌∷◌, any, length, leb, str_eq, if◌then◌else◌,
}
use app_catalogo.Common.Int.{ℤ}
use app_catalogo.Common.Maps.{lookup}
use app_catalogo.Common.Text.{is_empty, contains}
use app_catalogo.Catalog.{CatalogItem}

pub record Floats : Type 1 where
  pub F : Type 0
  pub decimal : ℕ → F
  pub add : F → F → F
  pub mul : F → F → F
  pub truncate : F → ℤ
  pub over_hundred : ℤ → F
  pub is_zero : F → Bool
  -- cmp.Compare(a, b) < 0
  pub less : F → F → Bool

-- What the service reads of the target audience of an item.
pub record TargetAudienceData : Type 0 where
  pub escolaridade : List String
  pub renda : String
  pub deficiencia : List String
  pub faixa_etaria : List String

abbrev pub no_audience : TargetAudienceData
no_audience = record { escolaridade = []; renda = ""; deficiencia = []; faixa_etaria = [] }

-- strings.EqualFold, strings.ToLower and json.Unmarshal
pub record Texts : Type 0 where
  pub equal_fold : String → String → Bool
  pub to_lower : String → String
  pub parse_audience : String → Option TargetAudienceData

pub record CitizenProfile : Type 0 where
  pub cpf_hash : String
  pub bairro : String
  pub escolaridade : String
  pub renda_familiar : String
  pub deficiencia : String
  pub faixa_etaria : String

-- `ParseTargetAudience`
unfoldable pub parse_target_audience : Texts → Option String → TargetAudienceData
parse_target_audience l none = no_audience
parse_target_audience l (some raw) =
    if is_empty raw
    then no_audience
    else elim (l.parse_audience raw) [ none ↦ no_audience | some ta ↦ ta ]

module _ (n : Floats) where
  pub record ScoringWeights : Type 0 where
    pub escolaridade : n.F
    pub renda_familiar : n.F
    pub localizacao : n.F
    pub acessibilidade : n.F
    pub faixa_etaria : n.F
    pub tipo_item : n.F

  -- `TypeWeightsByContext`, with that of the home page for other contexts.
  unfoldable pub type_weights : String → List (String × n.F)
  type_weights context =
      if str_eq context "after_search"
      then ("service", n.decimal 25)
        ∷ ("course", n.decimal 25)
        ∷ ("job", n.decimal 25)
        ∷ ("mei_opportunity", n.decimal 25)
        ∷ []
      else if str_eq context "profile"
      then ("service", n.decimal 20)
        ∷ ("course", n.decimal 35)
        ∷ ("job", n.decimal 35)
        ∷ ("mei_opportunity", n.decimal 10)
        ∷ []
      else ("service", n.decimal 40)
        ∷ ("course", n.decimal 30)
        ∷ ("job", n.decimal 20)
        ∷ ("mei_opportunity", n.decimal 10)
        ∷ []

  unfoldable pub round2 : n.F → n.F
  round2 v = n.over_hundred (n.truncate (n.mul v (n.decimal 10000)))

  unfoldable pub match_string_slice : Texts → String → List String → n.F → n.F
  match_string_slice l profile_val target_vals default_score =
      if leb (length target_vals) 0 || is_empty profile_val
      then default_score
      else if any (λ v. l.equal_fold v profile_val) target_vals
      then n.decimal 100
      else n.decimal 30

  unfoldable pub match_renda : Texts → String → String → n.F
  match_renda l profile_renda target_renda =
      if is_empty target_renda
      then n.decimal 80
      else if is_empty profile_renda
      then n.decimal 70
      else if l.equal_fold profile_renda target_renda
      then n.decimal 100
      else n.decimal 40

  unfoldable pub match_localizacao : Texts → String → List String → String → n.F
  match_localizacao l profile_bairro item_bairros modalidade =
      let where_held = l.to_lower modalidade in
      if contains where_held "online" || contains where_held "remoto" || contains where_held "ead"
      then n.decimal 60
      else if leb (length item_bairros) 0
      then n.decimal 70
      else if is_empty profile_bairro
      then n.decimal 50
      else if any (λ b. l.equal_fold b profile_bairro) item_bairros
      then n.decimal 100
      else n.decimal 30

  unfoldable pub match_acessibilidade : Texts → String → List String → n.F
  match_acessibilidade l profile_def target_def =
      if is_empty profile_def
      then n.decimal 100
      else if leb (length target_def) 0
      then n.decimal 60
      else if any (λ d. l.equal_fold d profile_def || l.equal_fold d "todos") target_def
      then n.decimal 100
      else n.decimal 40

  pub record Matches : Type 0 where
    pub escolaridade : n.F
    pub renda : n.F
    pub localizacao : n.F
    pub acessibilidade : n.F
    pub faixa_etaria : n.F

  unfoldable pub matches :
      Texts → CatalogItem → TargetAudienceData → Option CitizenProfile → Matches
  unfolding match_string_slice match_renda match_localizacao match_acessibilidade
  matches l item ta none = record {
    escolaridade = n.decimal 70;
    renda = n.decimal 80;
    localizacao = n.decimal 70;
    acessibilidade = n.decimal 100;
    faixa_etaria = n.decimal 80;
  }
  matches l item ta (some p) = record {
    escolaridade = match_string_slice l p.escolaridade ta.escolaridade (n.decimal 70);
    renda = match_renda l p.renda_familiar ta.renda;
    localizacao = match_localizacao l p.bairro item.bairros item.modalidade;
    acessibilidade = match_acessibilidade l p.deficiencia ta.deficiencia;
    faixa_etaria = match_string_slice l p.faixa_etaria ta.faixa_etaria (n.decimal 80);
  }

  unfoldable pub type_score : Option n.F → n.F
  type_score none = n.decimal 25
  type_score (some w) = if n.is_zero w then n.decimal 25 else w

  -- `scoreItem`
  unfoldable pub score_item :
      Texts
      → ScoringWeights
      → CatalogItem
      → Option CitizenProfile
      → List (String × n.F)
      → n.F × List (String × n.F)
  unfolding parse_target_audience matches type_score round2
  score_item l w item profile weights =
      let m = matches l item (parse_target_audience l item.target_audience) profile in
      let escolaridade = n.mul w.escolaridade m.escolaridade in
      let renda = n.mul w.renda_familiar m.renda in
      let localizacao = n.mul w.localizacao m.localizacao in
      let acessibilidade = n.mul w.acessibilidade m.acessibilidade in
      let faixa_etaria = n.mul w.faixa_etaria m.faixa_etaria in
      let tipo = n.mul w.tipo_item (type_score (lookup item.item_type weights)) in
      let total =
        n.add
          (n.add (n.add (n.add (n.add escolaridade renda) localizacao) acessibilidade) faixa_etaria)
          tipo in
      (
        round2 total,
        ("escolaridade", round2 escolaridade)
            ∷ ("renda", round2 renda)
            ∷ ("localizacao", round2 localizacao)
            ∷ ("acessibilidade", round2 acessibilidade)
            ∷ ("faixa_etaria", round2 faixa_etaria)
            ∷ ("tipo", round2 tipo)
            ∷ [],
      )
