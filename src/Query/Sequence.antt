-- ===== src/Query/Sequence.antt =====
-- `containsTokenSequence` decides whether the sequence stands, unbroken, among the tokens.
use text.Mathlib.TextPositions.{eq_refl}
use app_catalogo.Common.{
  ℕ, zero, suc, ◌-◌, ◌≤◌, String, ◌≡◌, ◌≢◌, ◌↔◌, refl, ap, ◌∙◌, inl, inr, true, List, [], ◌∷◌, ◌++◌,
  arith, length, length-append, eq_iff, Bool-cases,
}
use app_catalogo.Query.{matches_at, scan, contains_token_sequence}

-- The sequence stands in the tokens, with what comes before and after it.
abbrev pub Occurs : List String → List String → Type 0
Occurs sequence tokens =
    (before : List String) × (after : List String) × (tokens ≡ before ++ (sequence ++ after))

matches_at_sound :
    (tokens sequence : List String)
    → matches_at tokens sequence ≡ true
    → (after : List String) × (tokens ≡ sequence ++ after)
unfolding matches_at
matches_at_sound tokens [] h = (tokens, refl)
matches_at_sound [] (s ∷ sequence) h = cc
matches_at_sound (t ∷ tokens) (s ∷ sequence) h =
    let (after, e) = matches_at_sound tokens sequence (ground arith) in
    (after, ground (arith, eq_iff t s))

matches_at_complete :
    (sequence after : List String) → matches_at (sequence ++ after) sequence ≡ true
unfolding matches_at
matches_at_complete [] after = refl
matches_at_complete (s ∷ sequence) after =
    ground (arith, eq_refl s, matches_at_complete sequence after)

Occurs-here :
    (tokens sequence : List String) → matches_at tokens sequence ≡ true → Occurs sequence tokens
Occurs-here tokens sequence h =
    let (after, e) = matches_at_sound tokens sequence h in ([], after, e)

scan_sound :
    (rounds : ℕ) (tokens sequence : List String)
    → scan rounds tokens sequence ≡ true
    → Occurs sequence tokens
unfolding scan
scan_sound zero tokens sequence h = Occurs-here tokens sequence h
scan_sound (suc rounds) [] sequence h = Occurs-here [] sequence h
scan_sound (suc rounds) (t ∷ tokens) sequence h =
    elim (Bool-cases (matches_at (t ∷ tokens) sequence)) [
      | inl here ↦ Occurs-here (t ∷ tokens) sequence here
      | inr later ↦
          let (before, after, e) = scan_sound rounds tokens sequence (ground arith) in
          (t ∷ before, after, ap (λ l. t ∷ l) e)
    ]

scan_head :
    (rounds : ℕ) (tokens sequence : List String)
    → matches_at tokens sequence ≡ true
    → scan rounds tokens sequence ≡ true
unfolding scan
scan_head zero tokens sequence h = h
scan_head (suc rounds) [] sequence h = h
scan_head (suc rounds) (t ∷ tokens) sequence h = ground arith

scan_complete :
    (rounds : ℕ) (before sequence after : List String)
    → length before ≤ rounds
    → scan rounds (before ++ (sequence ++ after)) sequence ≡ true
unfolding scan
scan_complete zero [] sequence after h = matches_at_complete sequence after
scan_complete zero (b ∷ before) sequence after h = absurd (omega arith)
scan_complete (suc rounds) [] sequence after h =
    scan_head (suc rounds) (sequence ++ after) sequence (matches_at_complete sequence after)
scan_complete (suc rounds) (b ∷ before) sequence after h =
    ground (arith, scan_complete rounds before sequence after)

contains_sound :
    (tokens sequence : List String)
    → contains_token_sequence tokens sequence ≡ true
    → (sequence ≢ []) × Occurs sequence tokens
unfolding contains_token_sequence
contains_sound tokens [] h = cc
contains_sound tokens (s ∷ sequence) h = (
  λ e. cc,
  scan_sound (length tokens - length (s ∷ sequence)) tokens (s ∷ sequence) (ground arith),
)

-- The tokens before an occurrence are no more than the start indices that the loop tries.
before_fits :
    (tokens sequence before after : List String)
    → tokens ≡ before ++ (sequence ++ after)
    → (length before ≤ length tokens - length sequence) × (length sequence ≤ length tokens)
before_fits tokens sequence before after e =
    omega
      (arith, ap length e, length-append before (sequence ++ after), length-append sequence after)

contains_complete :
    (tokens sequence : List String)
    → sequence ≢ []
    → Occurs sequence tokens
    → contains_token_sequence tokens sequence ≡ true
unfolding contains_token_sequence
contains_complete tokens [] n o = absurd (n refl)
contains_complete tokens (s ∷ sequence) n (before, after, e) =
    let fits = before_fits tokens (s ∷ sequence) before after e in
    let rounds = length tokens - length (s ∷ sequence) in
    let found : scan rounds tokens (s ∷ sequence) ≡ true =
      ap (λ l. scan rounds l (s ∷ sequence)) e
      ∙ scan_complete rounds before (s ∷ sequence) after fits.0 in
    ground arith

-- The answer is yes exactly when the sequence is not empty and stands, unbroken and in order,
-- somewhere among the tokens.
pub contains_token_sequence_iff :
    (tokens sequence : List String)
    → (contains_token_sequence tokens sequence ≡ true) ↔ ((sequence ≢ []) × Occurs sequence tokens)
contains_token_sequence_iff tokens sequence =
    (contains_sound tokens sequence, λ h. contains_complete tokens sequence h.0 h.1)
