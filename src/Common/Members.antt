-- ===== src/Common/Members.antt =====
-- The items of lists that are mapped, filtered and cut.
use Prim.Native.Nat.{ℕ, zero, suc}
use mathlib.Core.Path.{◌≡◌, refl, sym, ap, ◌∙◌}
use mathlib.Core.Logic.{◌⊎◌, inl, inr}
use mathlib.Core.Bool.{Bool, true}
use mathlib.Core.List.{List, [], ◌∷◌, ◌++◌, map}
use native.Mathlib.Omega.{arith}
use app_catalogo.Common.Tests.{Bool-cases}
use app_catalogo.Common.Lists.{IsIn, any, keep_if, take, drop}

pub IsIn-map : {A B : Type 0} (f : A → B) (a : A) (xs : List A) → IsIn a xs → IsIn (f a) (map f xs)
IsIn-map f a [] h = absurd h
IsIn-map f a (x ∷ xs) (inl here) = inl (ap f here)
IsIn-map f a (x ∷ xs) (inr later) = inr (IsIn-map f a xs later)

pub map_sound :
    {A B : Type 0} (f : A → B) (b : B) (xs : List A)
    → IsIn b (map f xs)
    → (a : A) × IsIn a xs × (b ≡ f a)
map_sound f b [] h = absurd h
map_sound f b (x ∷ xs) (inl here) = (x, inl refl, here)
map_sound f b (x ∷ xs) (inr later) = let (a, there, e) = map_sound f b xs later in (a, inr there, e)

module _ {A : Type 0} where
  pub any_of_in : (p : A → Bool) (a : A) (xs : List A) → IsIn a xs → p a ≡ true → any p xs ≡ true
  any_of_in p a [] h k = absurd h
  any_of_in p a (x ∷ xs) (inl here) h = rw (sym (ap p here) ∙ h)
  any_of_in p a (x ∷ xs) (inr later) h = ground (arith, any_of_in p a xs later h)

  pub keep_if_sound :
      (p : A → Bool) (a : A) (xs : List A) → IsIn a (keep_if p xs) → IsIn a xs × (p a ≡ true)
  keep_if_sound p a [] h = absurd h
  keep_if_sound p a (x ∷ xs) h = elim (Bool-cases (p x)) [
    | inr dropped ↦
        let (there, holds) = keep_if_sound p a xs (rw dropped at h) in (inr there, holds)
    | inl kept ↦
        let split : (a ≡ x) ⊎ IsIn a (keep_if p xs) = rw kept at h in
        elim split [
          | inl here ↦ (inl here, ap p here ∙ kept)
          | inr later ↦ let (there, holds) = keep_if_sound p a xs later in (inr there, holds)
        ]
  ]

  pub take_sound : (n : ℕ) (a : A) (xs : List A) → IsIn a (take n xs) → IsIn a xs
  take_sound zero a xs h = absurd h
  take_sound (suc n) a [] h = absurd h
  take_sound (suc n) a (x ∷ xs) (inl here) = inl here
  take_sound (suc n) a (x ∷ xs) (inr later) = inr (take_sound n a xs later)

  pub drop_sound : (n : ℕ) (a : A) (xs : List A) → IsIn a (drop n xs) → IsIn a xs
  drop_sound zero a xs h = h
  drop_sound (suc n) a [] h = absurd h
  drop_sound (suc n) a (x ∷ xs) h = inr (drop_sound n a xs h)

  pub IsIn-last : (a x : A) (xs : List A) → IsIn a xs → IsIn a (xs ++ x ∷ [])
  IsIn-last a x [] h = absurd h
  IsIn-last a x (y ∷ xs) (inl here) = inl here
  IsIn-last a x (y ∷ xs) (inr later) = inr (IsIn-last a x xs later)

  pub is_last : (x : A) (xs : List A) → IsIn x (xs ++ x ∷ [])
  is_last x [] = inl refl
  is_last x (y ∷ xs) = inr (is_last x xs)

  pub last_sound : (a x : A) (xs : List A) → IsIn a (xs ++ x ∷ []) → (a ≡ x) ⊎ IsIn a xs
  last_sound a x [] (inl here) = inl here
  last_sound a x [] (inr none_left) = absurd none_left
  last_sound a x (y ∷ xs) (inl here) = inr (inl here)
  last_sound a x (y ∷ xs) (inr later) = elim (last_sound a x xs later) [
    | inl e ↦ inl e
    | inr there ↦ inr (inr there)
  ]
