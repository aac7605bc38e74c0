-- ===== src/Common/Doubling.antt =====
-- The loop that doubles a wait, which internal/clients/resilience.go, internal/datasource/manager.go
-- and internal/services/salesforce_webhook_service.go each have a copy of:
--   for i := 1; i < attempt && d < max; i++ { d *= 2 }
use Prim.Native.Nat.{ℕ, zero, suc, ◌*◌, ◌^◌, ◌≤◌, min}
use mathlib.Core.Path.{◌≡◌, ap, ◌∙◌}
use mathlib.Core.Bool.{true, false}
use mathlib.Core.Logic.{inl, inr}
use native.Mathlib.Omega.{arith}
use native.Mathlib.Nat.{pow-suc, mul_comm}
use app_catalogo.Common.Tests.{ltb, ltb→lt, if◌then◌else◌, Bool-cases}
use app_catalogo.Common.Int.{ℤ, pos, ltb_ℤ, double64, double64_small, half_range}

-- The rounds are those that `i < attempt` allows.
unfoldable pub double_while : ℕ → ℤ → ℤ → ℤ
double_while zero max d = d
double_while (suc rounds) max d =
    let next = double_while rounds max (double64 d) in if ltb_ℤ d max then next else d

-- The cut at the maximum that follows the loop.
abbrev pub cap_at : ℤ → ℤ → ℤ
cap_at max d = if ltb_ℤ max d then max else d

one-le-pow : (k : ℕ) → 1 ≤ 2 ^ k
one-le-pow zero = omega arith
one-le-pow (suc k) = omega (arith, pow-suc 2 k, one-le-pow k)

le-mul-pow : (k d : ℕ) → d ≤ d * 2 ^ k
le-mul-pow k d = grind (arith, one-le-pow k)

step_below :
    (k m d : ℕ)
    → m ≤ half_range
    → ltb d m ≡ true
    → double_while (suc k) (pos m) (pos d) ≡ double_while k (pos m) (pos (2 * d))
unfolding double_while
step_below k m d h below = ground (arith, double64_small d (omega (arith, ltb→lt d m below)))

step_past : (k m d : ℕ) → ltb d m ≡ false → double_while (suc k) (pos m) (pos d) ≡ pos d
unfolding double_while
step_past k m d past = ground arith

past-le : (d m : ℕ) → ltb d m ≡ false → m ≤ d
past-le d m h = ground arith

cap-min : (m d : ℕ) → cap_at (pos m) (pos d) ≡ pos (min m d)
cap-min m d = ground arith

-- The loop and the cut give the smaller of the maximum and the base doubled once for each round:
-- no step leaves the int64 range if the maximum is at most 2 ^ 62.
pub double_while_lem :
    (k m d : ℕ)
    → m ≤ half_range
    → cap_at (pos m) (double_while k (pos m) (pos d)) ≡ pos (min m (d * 2 ^ k))
double_while_lem zero m d h = unfold double_while in rw (mul_comm d 1) (ground arith)
double_while_lem (suc k) m d h = elim (Bool-cases (ltb d m)) [
  | inl below ↦
      ap (cap_at (pos m)) (step_below k m d h below)
      ∙ double_while_lem k m (2 * d) h
      ∙ ap (λ t. pos (min m t)) (omega (arith, ap (λ t. d * t) (pow-suc 2 k)))
  | inr past ↦
      ap (cap_at (pos m)) (step_past k m d past)
      ∙ cap-min m d
      ∙ ap pos (omega (arith, past-le d m past, le-mul-pow (suc k) d))
]
