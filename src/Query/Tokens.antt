-- ===== src/Query/Tokens.antt =====
-- The tokens of a query: runs of letters and digits, with the combining marks left out.
use Prim.Native.Char.{Char}
use Prim.Native.String.{String, [], ◌∷◌, ◌++◌}
use text.Mathlib.TextLemmas.{nil-append, cons-append}
use app_catalogo.Common.{◌≡◌, ◌≢◌, true, false, List, ◌⊎◌, inl, inr, Bool-cases, All}
use app_catalogo.Query.{
  Unicode, mark, word, separator, classify, flush, tokens_from, tokenize_for_match,
}

module _ (u : Unicode) where
  -- Every character is a letter or a digit, and none is a mark.
  abbrev pub IsRun : String → Type 0
  IsRun [] = Unit
  IsRun (c ∷ s) = (u.is_mark c ≡ false) × (u.is_letter_or_digit c ≡ true) × IsRun s

  abbrev pub IsToken : String → Type 0
  IsToken t = (t ≢ "") × IsRun t

  push-IsRun :
      (s : String) (c : Char)
      → IsRun s
      → u.is_mark c ≡ false
      → u.is_letter_or_digit c ≡ true
      → IsRun (s ++ (c ∷ []))
  push-IsRun [] c h m l = rw nil-append (m, l, tt)
  push-IsRun (d ∷ s) c (p, q, h) m l = rw cons-append (p, q, push-IsRun s c h m l)

  flush-All :
      (current : String) (tokens : List String)
      → IsRun current
      → All IsToken tokens
      → All IsToken (flush current tokens)
  flush-All [] tokens h k = k
  flush-All (c ∷ s) tokens h k = ((λ e. cc, h), k)

  -- The three ways in which a character is classified, with what the tests said.
  class_cases :
      (c : Char)
      → (classify u c ≡ mark)
        ⊎ (classify u c ≡ separator)
        ⊎ ((classify u c ≡ word) × (u.is_mark c ≡ false) × (u.is_letter_or_digit c ≡ true))
  unfolding classify
  class_cases c = elim (Bool-cases (u.is_mark c)) [
    | inl m ↦ inl (rw m)
    | inr m ↦ elim (Bool-cases (u.is_letter_or_digit c)) [
      | inl l ↦ inr (inr (rw (m, l), m, l))
      | inr l ↦ inr (inl (rw (m, l)))
    ]
  ]

  tokens_from-All :
      (text current : String) → IsRun current → All IsToken (tokens_from u current text)
  unfolding tokens_from
  tokens_from-All [] current h = flush-All current List.[] h tt
  tokens_from-All (c ∷ s) current h = elim (class_cases c) [
    | inl m ↦ rw (m, tokens_from) (tokens_from-All s current h)
    | inr (inl p) ↦
        rw (p, tokens_from) (flush-All current (tokens_from u [] s) h (tokens_from-All s [] tt))
    | inr (inr (w, m, l)) ↦
        rw (w, tokens_from) (tokens_from-All s (current ++ (c ∷ [])) (push-IsRun current c h m l))
  ]

  -- Whatever the text, each of its tokens is not empty and holds only letters and digits, none of
  -- which is a combining mark.
  pub tokenize_for_match-All : (text : String) → All IsToken (tokenize_for_match u text)
  unfolding tokenize_for_match
  tokenize_for_match-All text = tokens_from-All (u.nfd (u.to_lower text)) [] tt
