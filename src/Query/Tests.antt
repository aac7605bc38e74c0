-- ===== src/Query/Tests.antt =====
-- The expansion of searches on concrete texts, with tables that know the letters of ASCII.
use Prim.Native.Char.{code}
use app_catalogo.Common.{IsIn, ◌≡◌, ◌≢◌, ◌↔◌, refl, false, ◌&&◌, List, [], ◌∷◌, leb, String}
use app_catalogo.Common.Text.{join_words, fields, trim_space, is_space}
use app_catalogo.Query.{
  Unicode, tokenize_for_match, canonical, has_explicit_websearch_syntax, with_branches, expand,
  classify,
}
use app_catalogo.Query.Rules.{synonym_rules}
use app_catalogo.Query.Expansion.{IsDistinct, Proposed, expand_branches}

abbrev ascii : Unicode
ascii = record {
  to_lower = λ s. s;
  nfd = λ s. s;
  is_mark = λ c. false;
  is_letter_or_digit = λ c. leb 97 (code c) && leb (code c) 122;
}

tokens_of : tokenize_for_match ascii "vaga na creche" ≡ "vaga" ∷ "na" ∷ "creche" ∷ []
unfolding tokenize_for_match classify
tokens_of = refl

plain_query : has_explicit_websearch_syntax (canonical "cras") ≡ false
unfolding has_explicit_websearch_syntax canonical join_words fields trim_space is_space
plain_query = refl

canonical_query : canonical "cras" ≡ "cras"
unfolding canonical join_words fields trim_space is_space
canonical_query = refl

query_tokens : tokenize_for_match ascii "cras" ≡ "cras" ∷ []
unfolding tokenize_for_match classify
query_tokens = refl

some_token : tokenize_for_match ascii (canonical "cras") ≢ []
some_token e = absurd (cc (e, canonical_query, query_tokens))

expand_branches_example :
    (es : List String) × (expand ascii synonym_rules "cras" ≡ with_branches (canonical "cras") es)
    × IsDistinct es
    × ((e : String)
        → IsIn e es ↔ Proposed ascii (tokenize_for_match ascii (canonical "cras")) synonym_rules e)
expand_branches_example = expand_branches ascii synonym_rules "cras" plain_query some_token
