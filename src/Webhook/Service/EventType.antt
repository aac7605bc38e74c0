-- ===== src/Webhook/Service/EventType.antt =====
-- The event type that is stored: without control characters, and cut to the column's width.
use Prim.Native.Char.{code}
use Prim.Native.String.{String, [], ◌∷◌}
use app_catalogo.Common.{
  ℕ, zero, suc, ◌≤◌, ◌≡◌, refl, false, leb, leb→le, arith, if◌then◌else◌, Bool-cases, inl, inr,
}
use app_catalogo.Common.Text.{is_control, rune_count, take_runes, drop_controls}

abbrev pub max_webhook_event_type_chars : ℕ
max_webhook_event_type_chars = 64

unfoldable pub truncate_runes : String → ℕ → String
truncate_runes s n = if leb (rune_count s) n then s else take_runes n s

unfoldable pub sanitize_event_type : String → String
sanitize_event_type event_type =
    truncate_runes (drop_controls event_type) max_webhook_event_type_chars

abbrev pub HasNoControl : String → Type 0
HasNoControl [] = Unit
HasNoControl (c ∷ s) = (is_control (code c) ≡ false) × HasNoControl s

-- The runes of a text begin with those of another.
abbrev pub IsPrefix : String → String → Type 0
IsPrefix [] s = Unit
IsPrefix (c ∷ p) [] = ⊥
IsPrefix (c ∷ p) (d ∷ s) = (c ≡ d) × IsPrefix p s

drop_controls-HasNoControl : (s : String) → HasNoControl (drop_controls s)
unfolding drop_controls
drop_controls-HasNoControl [] = tt
drop_controls-HasNoControl (c ∷ s) = elim (Bool-cases (is_control (code c))) [
  | inl control ↦ rw control (drop_controls-HasNoControl s)
  | inr plain ↦ rw plain (plain, drop_controls-HasNoControl s)
]

take_runes-HasNoControl : (n : ℕ) (s : String) → HasNoControl s → HasNoControl (take_runes n s)
take_runes-HasNoControl zero s h = tt
take_runes-HasNoControl (suc n) [] h = tt
take_runes-HasNoControl (suc n) (c ∷ s) (h, t) = (h, take_runes-HasNoControl n s t)

count-take_runes : (n : ℕ) (s : String) → rune_count (take_runes n s) ≤ n
count-take_runes zero s = omega arith
count-take_runes (suc n) [] = omega arith
count-take_runes (suc n) (c ∷ s) = omega (arith, count-take_runes n s)

take_runes-IsPrefix : (n : ℕ) (s : String) → IsPrefix (take_runes n s) s
take_runes-IsPrefix zero s = tt
take_runes-IsPrefix (suc n) [] = tt
take_runes-IsPrefix (suc n) (c ∷ s) = (refl, take_runes-IsPrefix n s)

IsPrefix-refl : (s : String) → IsPrefix s s
IsPrefix-refl [] = tt
IsPrefix-refl (c ∷ s) = (refl, IsPrefix-refl s)

truncate_runes_bounds :
    (s : String) (n : ℕ)
    → HasNoControl s
    → (rune_count (truncate_runes s n) ≤ n)
      × HasNoControl (truncate_runes s n)
      × IsPrefix (truncate_runes s n) s
unfolding truncate_runes
truncate_runes_bounds s n h = elim (Bool-cases (leb (rune_count s) n)) [
  | inl fits ↦ rw fits (leb→le _ _ fits, h, IsPrefix-refl s)
  | inr long ↦
      rw long (count-take_runes n s, take_runes-HasNoControl n s h, take_runes-IsPrefix n s)
]

-- The stored event type has no control character and at most 64 characters, and is a prefix of the
-- given text without its control characters.
pub sanitize_event_type_bounds :
    (event_type : String)
    → (rune_count (sanitize_event_type event_type) ≤ max_webhook_event_type_chars)
      × HasNoControl (sanitize_event_type event_type)
      × IsPrefix (sanitize_event_type event_type) (drop_controls event_type)
unfolding sanitize_event_type
sanitize_event_type_bounds event_type =
    truncate_runes_bounds (drop_controls event_type) 64 (drop_controls-HasNoControl event_type)

drop_controls_plain : (s : String) → HasNoControl s → drop_controls s ≡ s
unfolding drop_controls
drop_controls_plain [] h = refl
drop_controls_plain (c ∷ s) (plain, h) = rw (plain, drop_controls_plain s h)

-- An event type of at most 64 characters, none of them a control character, is stored as it is.
pub sanitize_event_type_plain :
    (event_type : String)
    → HasNoControl event_type
    → rune_count event_type ≤ max_webhook_event_type_chars
    → sanitize_event_type event_type ≡ event_type
unfolding sanitize_event_type truncate_runes
sanitize_event_type_plain event_type plain short =
    rw (drop_controls_plain event_type plain) (ground arith)
