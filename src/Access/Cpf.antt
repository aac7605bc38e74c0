-- ===== src/Access/Cpf.antt =====
-- `normalizeCPF` of internal/api/middleware/user_context.go, on texts as their runes.
use mathlib.Core.Path.{subst}
use Prim.Native.Char.{Char, code}
use Prim.Native.String.{String, [], ◌∷◌}
use app_catalogo.Common.{
  ℕ, ◌+◌, ◌≤◌, ◌≡◌, refl, sym, ap, ◌∙◌, ◌↔◌, Bool, true, false, not, ◌&&◌, ◌||◌, Option, none, some,
  leb, ltb, ◌==◌, arith, if◌then◌else◌, Bool-cases, inl, inr,
}
use app_catalogo.Common.Text.{trim_space, trim_left, trim_right, is_space, rune_count}

-- The replacer that leaves out "." and "-".
unfoldable pub drop_separators : String → String
drop_separators [] = []
drop_separators (c ∷ s) =
    let rest = drop_separators s in if code c == 45 || code c == 46 then rest else c ∷ rest

-- The bytes of a rune in UTF-8.
abbrev rune_length : ℕ → ℕ
rune_length n = if ltb n 128 then 1 else if ltb n 2048 then 2 else if ltb n 65536 then 3 else 4

-- `len` of a text.
unfoldable pub byte_count : String → ℕ
byte_count [] = 0
byte_count (c ∷ s) = rune_length (code c) + byte_count s

-- unicode.IsDigit(r) && r <= unicode.MaxASCII: the digits of ASCII are those of Latin-1.
abbrev pub is_ascii_digit : Char → Bool
is_ascii_digit c = leb 48 (code c) && leb (code c) 57

unfoldable pub all_digits : String → Bool
all_digits [] = true
all_digits (c ∷ s) = is_ascii_digit c && all_digits s

unfoldable pub accept_cpf : String → Option String
accept_cpf canonical =
    if not (byte_count canonical == 11)
    then none
    else if all_digits canonical
    then some canonical
    else none

unfoldable pub normalize_cpf : String → Option String
normalize_cpf raw = accept_cpf (drop_separators (trim_space raw))

-- Eleven digits of ASCII.
abbrev pub IsDigits : String → Type 0
IsDigits [] = Unit
IsDigits (c ∷ s) = (48 ≤ code c) × (code c ≤ 57) × IsDigits s

abbrev pub IsCpf : String → Type 0
IsCpf s = (rune_count s ≡ 11) × IsDigits s

IsDigits-sound : (s : String) → all_digits s ≡ true → IsDigits s
unfolding all_digits
IsDigits-sound [] h = tt
IsDigits-sound (c ∷ s) h = (ground arith, ground arith, IsDigits-sound s (ground arith))

digits_complete : (s : String) → IsDigits s → all_digits s ≡ true
unfolding all_digits
digits_complete [] h = refl
digits_complete (c ∷ s) (lo, hi, h) = ground (arith, digits_complete s h)

digits_bytes : (s : String) → IsDigits s → byte_count s ≡ rune_count s
unfolding byte_count
digits_bytes [] h = refl
digits_bytes (c ∷ s) (lo, hi, h) = ground (arith, digits_bytes s h)

accept_cpf_sound : (s c : String) → accept_cpf s ≡ some c → (c ≡ s) × IsCpf c
unfolding accept_cpf
accept_cpf_sound s c h = elim (Bool-cases (all_digits s)) [
  | inl digits ↦
      let known = IsDigits-sound s digits in
      let bytes = digits_bytes s known in
      let same : s ≡ c = ground arith in (sym same, subst IsCpf same (ground arith, known))
  | inr others ↦ absurd (ground arith)
]

accept_cpf_complete : (s : String) → IsCpf s → accept_cpf s ≡ some s
unfolding accept_cpf
accept_cpf_complete s (count, h) = ground (arith, digits_complete s h, digits_bytes s h)

-- A CPF is accepted exactly where the text without the spaces around it and without "." and "-"
-- is eleven digits of ASCII, and what is accepted is that text.
pub normalize_cpf_iff :
    (raw c : String)
    → (normalize_cpf raw ≡ some c) ↔ ((c ≡ drop_separators (trim_space raw)) × IsCpf c)
unfolding normalize_cpf
normalize_cpf_iff raw c = (
  accept_cpf_sound (drop_separators (trim_space raw)) c,
  λ h. subst (λ t. accept_cpf t ≡ some c) h.0 (accept_cpf_complete c h.1),
)

digit_no_space : (n : ℕ) → 48 ≤ n → n ≤ 57 → is_space n ≡ false
unfolding is_space
digit_no_space n lo hi = ground arith

trim_left_digits : (s : String) → IsDigits s → trim_left s ≡ s
unfolding trim_left
trim_left_digits [] h = refl
trim_left_digits (c ∷ s) (lo, hi, h) = rw (digit_no_space (code c) lo hi) refl

trim_right_digits : (s : String) → IsDigits s → trim_right s ≡ s
unfolding trim_right
trim_right_digits [] h = refl
trim_right_digits (c ∷ s) (lo, hi, h) =
    rw (trim_right_digits s h, digit_no_space (code c) lo hi) (ground arith)

drop_separators_digits : (s : String) → IsDigits s → drop_separators s ≡ s
unfolding drop_separators
drop_separators_digits [] h = refl
drop_separators_digits (c ∷ s) (lo, hi, h) = ground (arith, drop_separators_digits s h)

-- An accepted CPF is accepted again, as it is.
pub normalize_cpf_idempotent :
    (raw c : String) → normalize_cpf raw ≡ some c → normalize_cpf c ≡ some c
unfolding trim_space
normalize_cpf_idempotent raw c h =
    let known = ((normalize_cpf_iff raw c).0 h).1 in
    let trimmed : trim_space c ≡ c =
      ap trim_right (trim_left_digits c known.1) ∙ trim_right_digits c known.1 in
    (normalize_cpf_iff c c).1
      (sym (ap drop_separators trimmed ∙ drop_separators_digits c known.1), known)

pub no_cpf : normalize_cpf "" ≡ none
unfolding normalize_cpf accept_cpf byte_count drop_separators trim_space
no_cpf = refl
