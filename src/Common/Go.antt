-- ===== src/Common/Go.antt =====
-- Go's errors: results with an error, and the chains that errors.Is and errors.As walk.
use mathlib.Core.Bool.{Bool, true, false, ◌||◌}
use mathlib.Core.Option.{Option, none, some}
use Prim.Native.String.{String}

pub data Result {ℓ κ} (E : Type ℓ) (A : Type κ) : Type (ℓ ⊔ κ) where
  ok : A → Result E A
  err : E → Result E A

-- The error values that the sources compare with errors.Is.
pub data Sentinel : Type 0 where
  circuit_open canceled deadline_exceeded service_not_found : Sentinel

-- `wrap` is fmt.Errorf with %w, `join` is errors.Join, `transient` is clients.transientError.
pub data Error : Type 0 where
  sentinel : Sentinel → Error
  message : String → Error
  wrap : String → Error → Error
  transient : Error → Error
  join : Error → Error → Error

unfoldable pub same_sentinel : Sentinel → Sentinel → Bool
same_sentinel circuit_open circuit_open = true
same_sentinel canceled canceled = true
same_sentinel deadline_exceeded deadline_exceeded = true
same_sentinel service_not_found service_not_found = true
same_sentinel _ _ = false

-- errors.Is
unfoldable pub is : Error → Sentinel → Bool
unfolding same_sentinel
is (sentinel s) t = same_sentinel s t
is (message m) t = false
is (wrap m e) t = is e t
is (transient e) t = is e t
is (join e f) t = is e t || is f t

-- errors.As with a *transientError target: `isTransient` of clients/resilience.go
unfoldable pub is_transient : Error → Bool
is_transient (sentinel s) = false
is_transient (message m) = false
is_transient (wrap m e) = is_transient e
is_transient (transient e) = true
is_transient (join e f) = is_transient e || is_transient f

-- `markTransient` of clients/resilience.go; nil stays nil
unfoldable pub mark_transient : Option Error → Option Error
mark_transient none = none
mark_transient (some e) = some (transient e)
