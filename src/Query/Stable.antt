-- ===== src/Query/Stable.antt =====
-- Expanding a query a second time changes nothing.
use Prim.Native.String
use text.Mathlib.TextLemmas.{append_assoc, append-nil}
use mathlib.Core.Path.{ap₂, subst}
use app_catalogo.Common.{
  String, ◌≡◌, ◌≢◌, refl, sym, ap, ◌∙◌, Bool, true, ◌||◌, List, [], ◌∷◌, ◌++◌, All, any, length,
  leb, str_eq, eq_iff, Bool-cases, inl, inr, not, ◌&&◌, and_elim, true_of_not, or_intro,
  if◌then◌else◌,
}
use app_catalogo.Common.Text.{is_space, fields, join_words}
use app_catalogo.Query.{
  Unicode, tokenize_for_match, tokens_from, has_dash_prefix, has_explicit_websearch_syntax, gather,
  canonical, with_branches, expand, applies,
}
use app_catalogo.Query.Rules.{SynonymRule, synonym_rules}
use app_catalogo.Query.Words.{
  IsWord, fields-join_words, fields-All, fields-trim_space, join_words-append,
}

-- A text that is one or more words joined by single spaces.
abbrev pub IsTidy : String → Type 0
IsTidy s = (w : String) × (ws : List String) × (s ≡ join_words " " (w ∷ ws)) × All IsWord (w ∷ ws)

canonical_eq : (q : String) → canonical q ≡ join_words " " (fields q)
unfolding canonical
canonical_eq q = ap (join_words " ") (fields-trim_space q)

canonical_tidy : (s : String) → IsTidy s → canonical s ≡ s
canonical_tidy s (w, ws, e, h) =
    canonical_eq s
    ∙ ap (λ t. join_words " " (fields t)) e
    ∙ ap (join_words " ") (fields-join_words (w ∷ ws) h)
    ∙ sym e

-- Canonical form is stable.
canonical_idempotent : (q : String) → canonical (canonical q) ≡ canonical q
canonical_idempotent q =
    canonical_eq (canonical q)
    ∙ ap (λ t. join_words " " (fields t)) (canonical_eq q)
    ∙ ap (join_words " ") (fields-join_words (fields q) (fields-All q))
    ∙ sym (canonical_eq q)

All-append : (P : String → Type 0) (xs ys : List String) → All P xs → All P ys → All P (xs ++ ys)
All-append P [] ys h k = k
All-append P (x ∷ xs) ys (h, t) k = (h, All-append P xs ys t k)

-- Two tidy texts with a space between them are a tidy text.
tidy_join : (s t : String) → IsTidy s → IsTidy t → IsTidy (String.◌++◌ s (String.◌++◌ " " t))
tidy_join s t (v, vs, e, h) (w, ws, f, k) = (
  v,
  vs ++ w ∷ ws,
  ap₂ (λ a b. String.◌++◌ a (String.◌++◌ " " b)) e f ∙ join_words-append v w vs ws,
  (h.0, All-append IsWord vs (w ∷ ws) h.1 k),
)

fields_tidy : (s : String) (t : IsTidy s) → fields s ≡ t.0 ∷ t.1
fields_tidy s (w, ws, e, h) = ap fields e ∙ fields-join_words (w ∷ ws) h

fields-tidy_join :
    (s t : String)
    → IsTidy s
    → IsTidy t
    → fields (String.◌++◌ s (String.◌++◌ " " t)) ≡ fields s ++ fields t
unfolding tidy_join
fields-tidy_join s t a b =
    fields_tidy _ (tidy_join s t a b) ∙ sym (ap₂ ◌++◌ (fields_tidy s a) (fields_tidy t b))

or_tidy : IsTidy "OR"
unfolding join_words is_space
or_tidy = ("OR", [], refl, ((refl, (refl, tt)), tt))

or_text :
    (t : String) → String.◌++◌ " OR " t ≡ String.◌++◌ " " (String.◌++◌ "OR" (String.◌++◌ " " t))
or_text t = append_assoc " OR" " " t ∙ append_assoc " " "OR" (String.◌++◌ " " t)

or_join_tidy : (s t : String) → IsTidy s → IsTidy t → IsTidy (String.◌++◌ s (String.◌++◌ " OR " t))
or_join_tidy s t a b =
    subst (λ x. IsTidy (String.◌++◌ s x)) (sym (or_text t))
      (tidy_join s (String.◌++◌ "OR" (String.◌++◌ " " t)) a (tidy_join "OR" t or_tidy b))

join_or_tidy :
    (e : String) (es : List String) → All IsTidy (e ∷ es) → IsTidy (join_words " OR " (e ∷ es))
unfolding join_words
join_or_tidy e [] (h, t) = subst IsTidy (sym (append-nil e)) h
join_or_tidy e (f ∷ es) (h, t) = or_join_tidy e (join_words " OR " (f ∷ es)) h (join_or_tidy f es t)

any_middle :
    (p : String → Bool) (xs ys : List String) (x : String)
    → p x ≡ true
    → any p (xs ++ x ∷ ys) ≡ true
any_middle p [] ys x h = rw h
any_middle p (z ∷ xs) ys x h = or_intro _ _ (inr (any_middle p xs ys x h))

fields_or : fields "OR" ≡ "OR" ∷ []
unfolding fields is_space
fields_or = refl

-- A branch behind OR makes the syntax explicit.
or_join_explicit :
    (s t : String)
    → IsTidy s
    → IsTidy t
    → has_explicit_websearch_syntax (String.◌++◌ s (String.◌++◌ " OR " t)) ≡ true
unfolding has_explicit_websearch_syntax
or_join_explicit s t a b = or_intro _ _ (
    inr (
      any_or (
        ap (λ x. fields (String.◌++◌ s x)) (or_text t)
        ∙ fields-tidy_join s (String.◌++◌ "OR" (String.◌++◌ " " t)) a (tidy_join "OR" t or_tidy b)
        ∙ ap (λ l. fields s ++ l)
            (fields-tidy_join "OR" t or_tidy b ∙ ap (λ l. l ++ fields t) fields_or))))
  where
    any_or :
        {l : List String}
        → l ≡ fields s ++ "OR" ∷ fields t
        → any (λ f. str_eq f "OR" || has_dash_prefix f) l ≡ true
    any_or e =
        ap (any (λ f. str_eq f "OR" || has_dash_prefix f)) e
        ∙ any_middle (λ f. str_eq f "OR" || has_dash_prefix f) (fields s) (fields t) "OR" refl

-- What is gathered from tidy expansions is tidy.
gather_tidy :
    (u : Unicode) (tokens seen : List String) (rules : List SynonymRule)
    → All (λ r. IsTidy r.expansion) rules
    → All IsTidy (gather u tokens seen rules)
unfolding gather
gather_tidy u tokens seen [] h = tt
gather_tidy u tokens seen (r ∷ rules) (h, t) = elim (Bool-cases (applies u tokens r)) [
  | inr skips ↦ rw (skips, gather) (gather_tidy u tokens seen rules t)
  | inl fits ↦ elim (Bool-cases (any (str_eq r.expansion) seen)) [
    | inl old ↦ rw (fits, gather, old) (gather_tidy u tokens seen rules t)
    | inr new ↦ rw (fits, gather, new) (h, gather_tidy u tokens (r.expansion ∷ seen) rules t)
  ]
]

explicit_canonical :
    (q : String)
    → has_explicit_websearch_syntax (canonical q) ≡ true
    → (u : Unicode) (rules : List SynonymRule) → expand u rules q ≡ canonical q
unfolding expand
explicit_canonical q h u rules = rw h

-- What `expand` sees of a query is its canonical form.
expand-canonical :
    (u : Unicode) (rules : List SynonymRule) (q r : String)
    → canonical r ≡ canonical q
    → expand u rules r ≡ expand u rules q
unfolding expand
expand-canonical u rules q r e =
    ap
      (λ c.
        if has_explicit_websearch_syntax c
        then c
        else if leb (length (tokenize_for_match u c)) 0
        then c
        else with_branches c (gather u (tokenize_for_match u c) [] rules))
      e

tidy_of_words :
    (s : String) (ws : List String) → s ≢ "" → s ≡ join_words " " ws → All IsWord ws → IsTidy s
unfolding join_words
tidy_of_words s [] n e h = absurd (n e)
tidy_of_words s (w ∷ ws) n e h = (w, ws, e, h)

-- The check that a text is tidy, for the texts of the table.
is_tidy : String → Bool
is_tidy s = not (str_eq s "") && str_eq s (join_words " " (fields s))

is_tidy_sound : (s : String) → is_tidy s ≡ true → IsTidy s
unfolding is_tidy
is_tidy_sound s h =
    let (some_text, same) = and_elim (not (str_eq s "")) (str_eq s (join_words " " (fields s))) h in
    tidy_of_words s (fields s) (λ e. cc (true_of_not (str_eq s "") some_text, (eq_iff s "").1 e))
      ((eq_iff _ _).0 same) (fields-All s)

all_tidy : List SynonymRule → Bool
all_tidy [] = true
all_tidy (r ∷ rules) = is_tidy r.expansion && all_tidy rules

all_tidy_sound :
    (rules : List SynonymRule) → all_tidy rules ≡ true → All (λ r. IsTidy r.expansion) rules
unfolding all_tidy
all_tidy_sound [] h = tt
all_tidy_sound (r ∷ rules) h =
    let (here, rest) = and_elim _ _ h in (is_tidy_sound r.expansion here, all_tidy_sound rules rest)

synonym_rules_tidy : All (λ r. IsTidy r.expansion) synonym_rules
synonym_rules_tidy =
    all_tidy_sound synonym_rules
      (unfold all_tidy is_tidy fields join_words is_space synonym_rules in refl)

settled :
    (u : Unicode) (rules : List SynonymRule) (q : String)
    → expand u rules q ≡ canonical q
    → expand u rules (expand u rules q) ≡ expand u rules q
settled u rules q e =
    ap (expand u rules) e ∙ expand-canonical u rules q (canonical q) (canonical_idempotent q)

branched :
    (u : Unicode) (rules : List SynonymRule) (q r : String)
    → expand u rules q ≡ r
    → IsTidy r
    → has_explicit_websearch_syntax r ≡ true
    → expand u rules (expand u rules q) ≡ expand u rules q
branched u rules q r e t h =
    let same = canonical_tidy r t in
    ap (expand u rules) e
    ∙ explicit_canonical r (ap has_explicit_websearch_syntax same ∙ h) u rules
    ∙ same
    ∙ sym e

with_branches-stable :
    (u : Unicode) (rules : List SynonymRule) (q : String) (es : List String)
    → canonical q ≢ ""
    → All IsTidy es
    → expand u rules q ≡ with_branches (canonical q) es
    → expand u rules (expand u rules q) ≡ expand u rules q
with_branches-stable u rules q [] n h e = settled u rules q e
with_branches-stable u rules q (x ∷ es) n h e =
    let first = tidy_of_words (canonical q) (fields q) n (canonical_eq q) (fields-All q) in
    let others = join_or_tidy x es h in
    branched u rules q (with_branches (canonical q) (x ∷ es)) e
      (or_join_tidy (canonical q) (join_words " OR " (x ∷ es)) first others)
      (or_join_explicit (canonical q) (join_words " OR " (x ∷ es)) first others)

no_tokens : (u : Unicode) → u.nfd (u.to_lower "") ≡ "" → tokenize_for_match u "" ≡ []
unfolding tokenize_for_match
no_tokens u e = ap (tokens_from u "") e

-- Expanding twice is expanding once, whatever the query and the rules, if each expansion of the
-- rules is words joined by single spaces.
expand_twice :
    (u : Unicode) (rules : List SynonymRule) (q : String)
    → u.nfd (u.to_lower "") ≡ ""
    → All (λ r. IsTidy r.expansion) rules
    → expand u rules (expand u rules q) ≡ expand u rules q
expand_twice u rules q empty tidy =
    elim (Bool-cases (has_explicit_websearch_syntax (canonical q))) [
      | inl explicit ↦ settled u rules q (explicit_canonical q explicit u rules)
      | inr plain ↦ elim (Bool-cases (leb (length (tokenize_for_match u (canonical q))) 0)) [
        | inl none ↦ settled u rules q (unfold expand in rw (plain, none))
        | inr some ↦
            with_branches-stable u rules q (gather u (tokenize_for_match u (canonical q)) [] rules)
              (λ e. cc (
                some,
                ap (λ c. leb (length (tokenize_for_match u c)) 0) e,
                ap (λ l. leb (length l) 0) (no_tokens u empty),
              ))
              (gather_tidy u (tokenize_for_match u (canonical q)) [] rules tidy)
              (unfold expand in rw (plain, some))
      ]
    ]

-- With the program's rules, expanding an expanded query gives the same text, whatever the query,
-- if lower-casing and decomposing leave the empty text empty.
pub expand_idempotent :
    (u : Unicode) (q : String)
    → u.nfd (u.to_lower "") ≡ ""
    → expand u synonym_rules (expand u synonym_rules q) ≡ expand u synonym_rules q
expand_idempotent u q empty = expand_twice u synonym_rules q empty synonym_rules_tidy
