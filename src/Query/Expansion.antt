-- ===== src/Query/Expansion.antt =====
-- Which expansions `Expand` appends, against a description that does not run the tests.
use mathlib.Core.Path.{subst}
use app_catalogo.Common.{
  String, ◌≡◌, ◌≢◌, ◌↔◌, refl, sym, ◌⊎◌, inl, inr, true, false, List, [], ◌∷◌, arith, All, IsIn,
  any, length, leb, eq_iff, str_eq, Bool-cases, false_of_not, true_of_not, and_elim, or_elim,
  or_intro, or_false,
}
use app_catalogo.Query.{
  Unicode, tokenize_for_match, matches_all, matches_pattern, has_anti_pattern, applies, gather,
  canonical, has_explicit_websearch_syntax, with_branches, expand,
}
use app_catalogo.Query.Rules.{SynonymRule}
use app_catalogo.Query.Sequence.{Occurs, contains_token_sequence_iff}

abbrev pub IsDistinct : List String → Type 0
IsDistinct [] = Unit
IsDistinct (x ∷ xs) = ¬ IsIn x xs × IsDistinct xs

module _ (u : Unicode) (tokens : List String) where
  -- The tokens of an entry stand, unbroken and in order, among those of the query.
  abbrev pub Stands : String → Type 0
  Stands entry = (tokenize_for_match u entry ≢ []) × Occurs (tokenize_for_match u entry) tokens

  -- Every entry of the pattern stands in the query, and no entry of the anti-patterns does.
  abbrev pub Fits : SynonymRule → Type 0
  Fits r = (r.pattern ≢ []) × All Stands r.pattern × All (λ a. ¬ Stands a) r.anti_patterns

  -- Some rule of the table that fits has this expansion.
  abbrev pub Proposed : List SynonymRule → String → Type 0
  Proposed [] e = ⊥
  Proposed (r ∷ rules) e = (Fits r × (r.expansion ≡ e)) ⊎ Proposed rules e

  matches_all_iff :
      (pattern : List String) → (matches_all u tokens pattern ≡ true) ↔ All Stands pattern
  unfolding matches_all
  matches_all_iff [] = (λ h. tt, λ h. refl)
  matches_all_iff (p ∷ pattern) =
      let here = contains_token_sequence_iff tokens (tokenize_for_match u p) in
      let rest = matches_all_iff pattern in
      (
        λ h. (here.0 (ground arith), rest.0 (ground arith)),
        λ h. ground (arith, here.1 h.0, rest.1 h.1),
      )

  matches_pattern_iff :
      (pattern : List String)
      → (matches_pattern u tokens pattern ≡ true) ↔ ((pattern ≢ []) × All Stands pattern)
  unfolding matches_pattern
  matches_pattern_iff [] = (λ h. cc, λ h. absurd (h.0 refl))
  matches_pattern_iff (p ∷ pattern) =
      let all = matches_all_iff (p ∷ pattern) in (λ h. (λ e. cc, all.0 h), λ h. all.1 h.1)

  has_anti_pattern_iff :
      (anti : List String) → (has_anti_pattern u tokens anti ≡ false) ↔ All (λ a. ¬ Stands a) anti
  unfolding has_anti_pattern
  has_anti_pattern_iff [] = (λ h. tt, λ h. refl)
  has_anti_pattern_iff (a ∷ anti) =
      let here = contains_token_sequence_iff tokens (tokenize_for_match u a) in
      let rest = has_anti_pattern_iff anti in
      (
        λ h. (λ s. cc (here.1 s, h), rest.0 (ground arith)),
        λ h. or_false _ _ (false_of_not _ (λ yes_here. h.0 (here.0 yes_here))) (rest.1 h.1),
      )

  applies_iff : (r : SynonymRule) → (applies u tokens r ≡ true) ↔ Fits r
  unfolding applies
  applies_iff r =
      let pattern = matches_pattern_iff r.pattern in
      let anti = has_anti_pattern_iff r.anti_patterns in
      (
        λ h.
            let (fits, free) = and_elim _ _ h in
            let stands = pattern.0 fits in (stands.0, stands.1, anti.0 (true_of_not _ free)),
        λ h. ground (arith, pattern.1 (h.0, h.1), anti.1 h.2),
      )

seen_iff : (e : String) (seen : List String) → (any (str_eq e) seen ≡ true) ↔ IsIn e seen
seen_iff e [] = (λ h. cc, λ h. absurd h)
seen_iff e (x ∷ seen) =
    let rest = seen_iff e seen in
    (λ h. split rest.0 (or_elim _ _ h), λ h. or_intro _ _ (join rest.1 h))
  where
    split :
        (any (str_eq e) seen ≡ true → IsIn e seen)
        → (str_eq e x ≡ true) ⊎ (any (str_eq e) seen ≡ true)
        → IsIn e (x ∷ seen)
    split rest (inl same) = inl ((eq_iff e x).0 same)
    split rest (inr later) = inr (rest later)

    join :
        (IsIn e seen → any (str_eq e) seen ≡ true)
        → IsIn e (x ∷ seen)
        → (str_eq e x ≡ true) ⊎ (any (str_eq e) seen ≡ true)
    join rest (inl same) = inl ((eq_iff e x).1 same)
    join rest (inr later) = inr (rest later)

module _ (u : Unicode) (tokens : List String) where
  gather_skips :
      (r : SynonymRule) (rules : List SynonymRule) (seen : List String)
      → applies u tokens r ≡ false
      → gather u tokens seen (r ∷ rules) ≡ gather u tokens seen rules
  unfolding gather
  gather_skips r rules seen h = rw (h, gather)

  gather_old :
      (r : SynonymRule) (rules : List SynonymRule) (seen : List String)
      → applies u tokens r ≡ true
      → any (str_eq r.expansion) seen ≡ true
      → gather u tokens seen (r ∷ rules) ≡ gather u tokens seen rules
  unfolding gather
  gather_old r rules seen h k = rw (h, gather, k)

  gather_new :
      (r : SynonymRule) (rules : List SynonymRule) (seen : List String)
      → applies u tokens r ≡ true
      → any (str_eq r.expansion) seen ≡ false
      → gather u tokens seen (r ∷ rules) ≡ r.expansion ∷ gather u tokens (r.expansion ∷ seen) rules
  unfolding gather
  gather_new r rules seen h k = rw (h, gather, k)

  -- What is gathered is proposed by the rules and was not seen before.
  gather_sound :
      (rules : List SynonymRule) (seen : List String) (e : String)
      → IsIn e (gather u tokens seen rules)
      → Proposed u tokens rules e × ¬ IsIn e seen
  gather_sound [] seen e h = absurd (unfold gather in h)
  gather_sound (r ∷ rules) seen e h = elim (Bool-cases (applies u tokens r)) [
    | inr skips ↦
        let (p, n) = gather_sound rules seen e (rw (gather_skips r rules seen skips) at h) in
        (inr p, n)
    | inl fits ↦ elim (Bool-cases (any (str_eq r.expansion) seen)) [
      | inl old ↦
          let (p, n) = gather_sound rules seen e (rw (gather_old r rules seen fits old) at h) in
          (inr p, n)
      | inr new ↦
          let now : IsIn e (r.expansion ∷ gather u tokens (r.expansion ∷ seen) rules) =
            rw (gather_new r rules seen fits new) at h in
          elim now [
            | inl same ↦ (
              inl ((applies_iff u tokens r).0 fits, sym same),
              λ i. cc (new, (seen_iff r.expansion seen).1 (subst (λ x. IsIn x seen) same i)),
            )
            | inr later ↦
                let (p, n) = gather_sound rules (r.expansion ∷ seen) e later in
                (inr p, λ i. n (inr i))
          ]
    ]
  ]

  -- Every proposed expansion was seen before or is gathered.
  gather_complete :
      (rules : List SynonymRule) (seen : List String) (e : String)
      → Proposed u tokens rules e
      → IsIn e seen ⊎ IsIn e (gather u tokens seen rules)
  gather_complete [] seen e h = absurd h
  gather_complete (r ∷ rules) seen e h = elim (Bool-cases (applies u tokens r)) [
    | inr skips ↦ elim h [
      | inl now ↦ cc (skips, (applies_iff u tokens r).1 now.0)
      | inr later ↦ rw (gather_skips r rules seen skips) (gather_complete rules seen e later)
    ]
    | inl fits ↦ elim (Bool-cases (any (str_eq r.expansion) seen)) [
      | inl old ↦ rw (gather_old r rules seen fits old) (elim h [
        | inl now ↦ inl (subst (λ x. IsIn x seen) now.1 ((seen_iff r.expansion seen).0 old))
        | inr later ↦ gather_complete rules seen e later
      ])
      | inr new ↦ rw (gather_new r rules seen fits new) (elim h [
        | inl now ↦ inr (inl (sym now.1))
        | inr later ↦ elim (gather_complete rules (r.expansion ∷ seen) e later) [
          | inl (inl same) ↦ inr (inl same)
          | inl (inr before) ↦ inl before
          | inr i ↦ inr (inr i)
        ]
      ])
    ]
  ]

  gather-IsDistinct :
      (rules : List SynonymRule) (seen : List String) → IsDistinct (gather u tokens seen rules)
  gather-IsDistinct [] seen = unfold gather in tt
  gather-IsDistinct (r ∷ rules) seen = elim (Bool-cases (applies u tokens r)) [
    | inr skips ↦ rw (gather_skips r rules seen skips) (gather-IsDistinct rules seen)
    | inl fits ↦ elim (Bool-cases (any (str_eq r.expansion) seen)) [
      | inl old ↦ rw (gather_old r rules seen fits old) (gather-IsDistinct rules seen)
      | inr new ↦ rw (gather_new r rules seen fits new) (
        λ i. (gather_sound rules (r.expansion ∷ seen) r.expansion i).1 (inl refl),
        gather-IsDistinct rules (r.expansion ∷ seen),
      )
    ]
  ]

length_nonempty : (l : List String) → l ≢ [] → leb (length l) 0 ≡ false
length_nonempty [] h = absurd (h refl)
length_nonempty (x ∷ l) h = ground arith

-- A query without explicit search syntax that has a token keeps its canonical form as the first
-- branch. The other branches are distinct, and they are exactly the expansions of the rules whose
-- every pattern entry stands in the query's tokens and none of whose anti-patterns does.
pub expand_branches :
    (u : Unicode) (rules : List SynonymRule) (query : String)
    → has_explicit_websearch_syntax (canonical query) ≡ false
    → tokenize_for_match u (canonical query) ≢ []
    → (es : List String) × (expand u rules query ≡ with_branches (canonical query) es)
      × IsDistinct es
      × ((e : String) → IsIn e es ↔ Proposed u (tokenize_for_match u (canonical query)) rules e)
unfolding expand
expand_branches u rules query plain some_token =
    let tokens = tokenize_for_match u (canonical query) in
    (
      gather u tokens [] rules,
      rw (plain, length_nonempty tokens some_token),
      gather-IsDistinct u tokens rules [],
      λ e. (
        λ i. (gather_sound u tokens rules [] e i).0,
        λ p. elim (gather_complete u tokens rules [] e p) [ inl i ↦ absurd i | inr i ↦ i ],
      ),
    )
