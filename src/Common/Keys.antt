-- ===== src/Common/Keys.antt =====
-- Membership in a list of texts.
use mathlib.Core.Path.{◌≡◌}
use mathlib.Core.Logic.{inl, inr}
use mathlib.Core.Bool.{true}
use mathlib.Core.List.{List, [], ◌∷◌}
use Prim.Native.String.{String}
use text.Mathlib.Text.{◌==◌ as str_eq}
use text.Mathlib.TextEquality.{eq_iff}
use app_catalogo.Common.Lists.{any, IsIn}
use app_catalogo.Common.Tests.{or_elim}

pub any_sound : (x : String) (l : List String) → any (str_eq x) l ≡ true → IsIn x l
any_sound x [] h = cc
any_sound x (y ∷ l) h = elim (or_elim (str_eq x y) (any (str_eq x) l) h) [
  | inl here ↦ inl ((eq_iff x y).0 here)
  | inr later ↦ inr (any_sound x l later)
]
