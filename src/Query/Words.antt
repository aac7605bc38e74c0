-- ===== src/Query/Words.antt =====
-- Words without spaces: strings.Fields takes back what strings.Join put together.
use Prim.Native.Char.{Char, code}
use Prim.Native.String.{String, [], ◌∷◌, ◌++◌}
use text.Mathlib.TextLemmas.{nil-append, cons-append, append-nil, append_assoc}
use mathlib.Core.List
use app_catalogo.Common.{
  ◌≡◌, refl, sym, ap, ◌∙◌, true, false, ◌&&◌, List, All, if◌then◌else◌, Bool-cases, inl, inr,
  and_elim,
}
use app_catalogo.Common.Text.{
  is_space, is_empty, trim_left, trim_right, trim_space, add_word, split_words, fields, join_rest,
  join_words,
}

abbrev pub HasNoSpace : String → Type 0
HasNoSpace [] = Unit
HasNoSpace (c ∷ s) = (is_space (code c) ≡ false) × HasNoSpace s

abbrev pub IsWord : String → Type 0
IsWord [] = ⊥
IsWord (c ∷ s) = HasNoSpace (c ∷ s)

split_words_space :
    (c : Char) (s : String) → is_space (code c) ≡ true → split_words (c ∷ s) ≡ ([], fields s)
unfolding split_words fields
split_words_space c s h = rw h

split_words_char :
    (c : Char) (s : String)
    → is_space (code c) ≡ false
    → split_words (c ∷ s) ≡ (c ∷ (split_words s).0, (split_words s).1)
unfolding split_words
split_words_char c s h = rw h

split_words-append :
    (w s : String)
    → HasNoSpace w
    → split_words (w ++ s) ≡ (w ++ (split_words s).0, (split_words s).1)
split_words-append [] s h = rw (nil-append s, nil-append (split_words s).0)
split_words-append (c ∷ w) s (h, k) =
    rw (cons-append c w s, cons-append c w (split_words s).0)
      (split_words_char c (w ++ s) h ∙ ap (λ r. (c ∷ r.0, r.1)) (split_words-append w s k))

fields_word : (w : String) (ws : List String) → IsWord w → add_word w ws ≡ List.◌∷◌ w ws
fields_word [] ws h = absurd h
fields_word (c ∷ w) ws h = refl

HasNoSpace-of_IsWord : (w : String) → IsWord w → HasNoSpace w
HasNoSpace-of_IsWord [] h = tt
HasNoSpace-of_IsWord (c ∷ w) h = h

space_text : (s : String) → " " ++ s ≡ " " ∷ s
space_text s = cons-append " " [] s ∙ ap (λ t. " " ∷ t) (nil-append s)

split_words_after_word :
    (w s : String) {ws : List String}
    → IsWord w
    → split_words s ≡ ([], ws)
    → fields (w ++ s) ≡ List.◌∷◌ w ws
unfolding fields
split_words_after_word w s {ws} h e =
    ap (λ r. add_word r.0 r.1)
      (split_words-append w s (HasNoSpace-of_IsWord w h) ∙ ap (λ r. (w ++ r.0, r.1)) e)
    ∙ ap (λ t. add_word t ws) (append-nil w)
    ∙ fields_word w ws h

split_words_nil : split_words [] ≡ ([], List.[])
unfolding split_words
split_words_nil = refl

-- A word, a space and more text: the word is the first field.
fields-word_space : (w s : String) → IsWord w → fields (w ++ (" " ++ s)) ≡ List.◌∷◌ w (fields s)
fields-word_space w s h =
    split_words_after_word w (" " ++ s) h
      (ap split_words (space_text s) ∙ split_words_space " " s (unfold is_space in refl))

fields_single : (w : String) → IsWord w → fields w ≡ List.◌∷◌ w List.[]
fields_single w h =
    ap fields (sym (append-nil w)) ∙ split_words_after_word w [] h (unfold split_words in refl)

-- Splitting at spaces undoes joining by a space.
pub fields-join_words : (ws : List String) → All IsWord ws → fields (join_words " " ws) ≡ ws
unfolding join_words
fields-join_words List.[] h = unfold fields in refl
fields-join_words (List.◌∷◌ w List.[]) (h, t) = ap fields (append-nil w) ∙ fields_single w h
fields-join_words (List.◌∷◌ w (List.◌∷◌ v ws)) (h, t) =
    fields-word_space w (v ++ join_rest " " ws) h
    ∙ ap (λ l. List.◌∷◌ w l) (fields-join_words (List.◌∷◌ v ws) t)

add_word-All :
    (w : String) (ws : List String) → HasNoSpace w → All IsWord ws → All IsWord (add_word w ws)
add_word-All [] ws h k = k
add_word-All (c ∷ w) ws h k = (h, k)

fields_of_split :
    (s : String)
    → HasNoSpace (split_words s).0 × All IsWord (split_words s).1
    → All IsWord (fields s)
unfolding fields
fields_of_split s h = add_word-All (split_words s).0 (split_words s).1 h.0 h.1

split_words-All : (s : String) → HasNoSpace (split_words s).0 × All IsWord (split_words s).1
split_words-All [] = unfold split_words in (tt, tt)
split_words-All (c ∷ s) = elim (Bool-cases (is_space (code c))) [
  | inl space ↦ rw (split_words_space c s space) (tt, fields_of_split s (split_words-All s))
  | inr other ↦
      rw (split_words_char c s other) ((other, (split_words-All s).0), (split_words-All s).1)
]

-- Every field is a word: not empty, and free of spaces.
pub fields-All : (s : String) → All IsWord (fields s)
fields-All s = fields_of_split s (split_words-All s)

fields_space : (c : Char) (s : String) → is_space (code c) ≡ true → fields (c ∷ s) ≡ fields s
fields_space c s h = (unfold fields in ap (λ r. add_word r.0 r.1) (split_words_space c s h))

fields-trim_left : (s : String) → fields (trim_left s) ≡ fields s
unfolding trim_left
fields-trim_left [] = refl
fields-trim_left (c ∷ s) = elim (Bool-cases (is_space (code c))) [
  | inl space ↦ rw space (fields-trim_left s ∙ sym (fields_space c s space))
  | inr other ↦ rw other
]

split_words_cong :
    (c : Char) (s t : String)
    → split_words s ≡ split_words t
    → split_words (c ∷ s) ≡ split_words (c ∷ t)
unfolding split_words
split_words_cong c s t e =
    ap (λ r. if is_space (code c) then ([], add_word r.0 r.1) else (c ∷ r.0, r.1)) e

is_empty-eq : (s : String) → is_empty s ≡ true → s ≡ []
is_empty-eq [] h = refl
is_empty-eq (c ∷ s) h = cc

split_words_blank :
    (c : Char) (s : String)
    → is_space (code c) ≡ true
    → split_words s ≡ ([], List.[])
    → split_words [] ≡ split_words (c ∷ s)
unfolding split_words fields
split_words_blank c s h e = sym (split_words_space c s h ∙ ap (λ r. ([], add_word r.0 r.1)) e)

split_words-trim_right : (s : String) → split_words (trim_right s) ≡ split_words s
unfolding trim_right
split_words-trim_right [] = refl
split_words-trim_right (c ∷ s) =
    let ih = split_words-trim_right s in
    elim (Bool-cases (is_empty (trim_right s) && is_space (code c))) [
      | inl blank ↦
          let (nothing, space) = and_elim _ _ blank in
          rw blank (
            split_words_blank c s space
              (sym ih ∙ ap split_words (is_empty-eq _ nothing) ∙ split_words_nil))
      | inr solid ↦ rw solid (split_words_cong c (trim_right s) s ih)
    ]

fields_cong : (s t : String) → split_words s ≡ split_words t → fields s ≡ fields t
unfolding fields
fields_cong s t e = ap (λ r. add_word r.0 r.1) e

-- Trimming a text does not change its fields.
pub fields-trim_space : (s : String) → fields (trim_space s) ≡ fields s
unfolding trim_space
fields-trim_space s = fields_cong _ _ (split_words-trim_right (trim_left s)) ∙ fields-trim_left s

-- Joining a list in two parts, neither of them empty.
pub join_words-append :
    (v w : String) (vs ws : List String)
    → join_words " " (List.◌∷◌ v vs) ++ (" " ++ join_words " " (List.◌∷◌ w ws))
      ≡ join_words " " (List.◌∷◌ v (List.◌++◌ vs (List.◌∷◌ w ws)))
unfolding join_words
join_words-append v w vs ws = append_assoc _ _ _ ∙ ap (λ t. v ++ t) (rest vs)
  where
    rest :
        (vs : List String)
        → join_rest " " vs ++ (" " ++ (w ++ join_rest " " ws))
          ≡ join_rest " " (List.◌++◌ vs (List.◌∷◌ w ws))
    rest List.[] = nil-append _
    rest (List.◌∷◌ u vs) =
        append_assoc _ _ _ ∙ ap (λ t. " " ++ t) (append_assoc _ _ _ ∙ ap (λ t. u ++ t) (rest vs))
