-- ===== src/Query.antt =====
-- internal/query/expander.go: the expansion of a search by synonyms.
-- The Unicode tables of the packages unicode and golang.org/x/text/unicode/norm are a parameter.
pub mod Rules
pub mod Tokens
pub mod Sequence
pub mod Expansion
pub mod Words
pub mod Stable
pub mod Tests
use Prim.Native.Char.{Char, code}
use Prim.Native.String
use Prim.Native.String.{◌∷◌ as cons}
use app_catalogo.Common.{
  ℕ, zero, suc, ◌+◌, ◌-◌, String, Bool, true, false, not, ◌&&◌, ◌||◌, List, [], ◌∷◌, ◌++◌, length,
  any, leb, ltb, ◌==◌, str_eq, if◌then◌else◌,
}
use app_catalogo.Common.Text.{is_empty, trim_space, fields, join_words}
use Rules.{SynonymRule}

-- strings.ToLower, norm.NFD.String, unicode.Is(unicode.Mn, c), and unicode.IsLetter or IsDigit.
pub record Unicode : Type 0 where
  pub to_lower : String → String
  pub nfd : String → String
  pub is_mark : Char → Bool
  pub is_letter_or_digit : Char → Bool

-- `strings.Contains(q, "\"")`
unfoldable pub has_quote : String → Bool
has_quote String.[] = false
has_quote (String.◌∷◌ c s) = code c == 34 || has_quote s

-- `strings.HasPrefix(f, "-")`
unfoldable pub has_dash_prefix : String → Bool
has_dash_prefix String.[] = false
has_dash_prefix (String.◌∷◌ c s) = code c == 45

unfoldable pub has_explicit_websearch_syntax : String → Bool
unfolding has_quote has_dash_prefix
has_explicit_websearch_syntax q =
    has_quote q || any (λ f. str_eq f "OR" || has_dash_prefix f) (fields q)

pub data CharClass : Type 0 where
  mark word separator : CharClass

unfoldable pub classify : Unicode → Char → CharClass
classify u c = if u.is_mark c then mark else if u.is_letter_or_digit c then word else separator

abbrev flush : String → List String → List String
flush current tokens = if is_empty current then tokens else current ∷ tokens

-- The loop of `tokenizeForMatch`, with the text of the builder.
unfoldable pub tokens_from : Unicode → String → String → List String
tokens_from u current String.[] = flush current []
tokens_from u current (String.◌∷◌ c s) = elim (classify u c) [
  | mark ↦ tokens_from u current s
  | word ↦ tokens_from u (String.◌++◌ current (String.◌∷◌ c String.[])) s
  | separator ↦ flush current (tokens_from u String.[] s)
]

unfoldable pub tokenize_for_match : Unicode → String → List String
unfolding tokens_from
tokenize_for_match u text = tokens_from u String.[] (u.nfd (u.to_lower text))

-- The inner loop: the sequence against the tokens from one index on.
unfoldable pub matches_at : List String → List String → Bool
matches_at tokens [] = true
matches_at [] (s ∷ sequence) = false
matches_at (t ∷ tokens) (s ∷ sequence) = str_eq t s && matches_at tokens sequence

-- The outer loop: `rounds` start indices are left behind this one.
unfoldable pub scan : ℕ → List String → List String → Bool
unfolding matches_at
scan zero tokens sequence = matches_at tokens sequence
scan (suc rounds) [] sequence = matches_at [] sequence
scan (suc rounds) (t ∷ tokens) sequence =
    matches_at (t ∷ tokens) sequence || scan rounds tokens sequence

unfoldable pub contains_token_sequence : List String → List String → Bool
unfolding scan
contains_token_sequence tokens sequence =
    if leb (length sequence) 0 || ltb (length tokens) (length sequence)
    then false
    else scan (length tokens - length sequence) tokens sequence

unfoldable pub matches_all : Unicode → List String → List String → Bool
matches_all u tokens [] = true
matches_all u tokens (entry ∷ pattern) =
    contains_token_sequence tokens (tokenize_for_match u entry) && matches_all u tokens pattern

unfoldable pub matches_pattern : Unicode → List String → List String → Bool
unfolding matches_all
matches_pattern u tokens [] = false
matches_pattern u tokens (entry ∷ pattern) = matches_all u tokens (entry ∷ pattern)

unfoldable pub has_anti_pattern : Unicode → List String → List String → Bool
has_anti_pattern u tokens anti_patterns =
    any (λ entry. contains_token_sequence tokens (tokenize_for_match u entry)) anti_patterns

-- The test that the loop of `Expand` makes of one rule.
unfoldable pub applies : Unicode → List String → SynonymRule → Bool
unfolding matches_pattern has_anti_pattern
applies u tokens rule =
    matches_pattern u tokens rule.pattern && not (has_anti_pattern u tokens rule.anti_patterns)

-- The loop over the rules, with the expansions seen so far; it returns those that it appends.
unfoldable pub gather : Unicode → List String → List String → List SynonymRule → List String
gather u tokens seen [] = []
gather u tokens seen (rule ∷ rules) = elim (applies u tokens rule) [
  | false ↦ gather u tokens seen rules
  | true ↦ elim (any (str_eq rule.expansion) seen) [
    | true ↦ gather u tokens seen rules
    | false ↦ rule.expansion ∷ gather u tokens (rule.expansion ∷ seen) rules
  ]
]

unfoldable pub canonical : String → String
canonical query = join_words " " (fields (trim_space query))

abbrev with_branches : String → List String → String
with_branches query [] = query
with_branches query (e ∷ es) = String.◌++◌ query (String.◌++◌ " OR " (join_words " OR " (e ∷ es)))

-- `Expand`, over a table of rules.
unfoldable pub expand : Unicode → List SynonymRule → String → String
expand u rules query =
    let q = canonical query in
    if has_explicit_websearch_syntax q
    then q
    else if leb (length (tokenize_for_match u q)) 0
    then q
    else with_branches q (gather u (tokenize_for_match u q) [] rules)
