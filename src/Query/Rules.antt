-- ===== src/Query/Rules.antt =====
-- The synonym rules of internal/query/expander.go.
use app_catalogo.Common.{String, List, [], ◌∷◌}

pub record SynonymRule : Type 0 where
  pub pattern : List String
  pub anti_patterns : List String
  pub expansion : String

abbrev rule : List String → String → SynonymRule
rule pattern expansion = record { pattern = pattern; anti_patterns = []; expansion = expansion }

abbrev except : List String → List String → String → SynonymRule
except pattern anti_patterns expansion = record {
  pattern = pattern;
  anti_patterns = anti_patterns;
  expansion = expansion;
}

unfoldable pub synonym_rules : List SynonymRule
synonym_rules =
    rule ("cras" ∷ []) "centro referência assistência social"
    ∷ rule ("creas" ∷ []) "centro referência especializado assistência social"
    ∷ rule ("caps" ∷ []) "centro atenção psicossocial saúde mental"
    ∷ rule ("suas" ∷ []) "sistema único assistência social"
    ∷ rule ("cad unico" ∷ []) "cadastro único benefício"
    ∷ rule ("cadunico" ∷ []) "cadastro único benefício"
    ∷ rule ("cadúnico" ∷ []) "cadastro único benefício"
    ∷ rule ("bolsa familia" ∷ []) "transferência renda benefício assistência"
    ∷ except ("bpc" ∷ []) ("banco" ∷ []) "benefício prestação continuada loas assistência"
    ∷ rule ("loas" ∷ []) "benefício prestação continuada assistência social"
    ∷ rule ("auxilio brasil" ∷ []) "transferência renda benefício social"
    ∷ rule ("ubs" ∷ []) "unidade básica saúde posto médico"
    ∷ rule ("upa" ∷ []) "unidade pronto atendimento urgência emergência"
    ∷ rule ("sus" ∷ []) "sistema único saúde cartão"
    ∷ except ("sms" ∷ []) ("mensagem" ∷ "telefone" ∷ []) "secretaria saúde"
    ∷ rule ("vacina" ∷ "cachorro" ∷ []) "vacinação animal pet"
    ∷ rule ("vacina" ∷ "gato" ∷ []) "vacinação animal pet"
    ∷ rule ("vacina" ∷ "animal" ∷ []) "vacinação animal pet"
    ∷ rule ("vacina" ∷ "pet" ∷ []) "vacinação animal pet"
    ∷ except ("vacina" ∷ []) ("animal" ∷ "cachorro" ∷ "gato" ∷ "pet" ∷ []) "vacinação imunização"
    ∷ except ("rg" ∷ []) ("endereço" ∷ "bairro" ∷ []) "registro geral identidade documento"
    ∷ rule ("cpf" ∷ []) "cadastro pessoa física documento"
    ∷ rule ("ctps" ∷ []) "carteira trabalho previdência social emprego"
    ∷ rule ("segunda via" ∷ []) "reemissão documento substituição"
    ∷ rule ("iptu" ∷ []) "imposto predial territorial urbano imóvel"
    ∷ rule ("habite-se" ∷ []) "habite se alvará construção regularização"
    ∷ rule ("itbi" ∷ []) "imposto transmissão bens imóveis transferência"
    ∷ rule ("riocard" ∷ []) "cartão passagem transporte público ônibus"
    ∷ rule ("bilhete unico" ∷ []) "passagem ônibus metrô transporte"
    ∷ rule ("cartao idoso" ∷ []) "passe livre gratuidade idoso transporte"
    ∷ rule ("sine" ∷ []) "sistema nacional emprego vaga trabalho"
    ∷ except ("mei" ∷ []) ("meio" ∷ []) "microempreendedor individual empresa"
    ∷ rule ("cnpj" ∷ []) "cadastro nacional pessoa jurídica empresa"
    ∷ rule ("seguro desemprego" ∷ []) "benefício desempregado seguro"
    ∷ rule ("creche" ∷ []) "educação infantil berçário criança"
    ∷ rule ("ciep" ∷ []) "escola pública educação ensino"
    ∷ rule ("sisbicho" ∷ []) "cadastro animal pet registro"
    ∷ rule ("nota carioca" ∷ []) "nota fiscal eletrônica imposto"
    ∷ rule ("alvara" ∷ []) "alvará funcionamento licença comercial"
    ∷ rule ("esic" ∷ []) "acesso informação transparência ouvidoria"
    ∷ rule ("156" ∷ []) "central atendimento prefeitura solicitação"
    ∷ []
