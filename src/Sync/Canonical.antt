-- ===== src/Sync/Canonical.antt =====
-- internal/clients/carta_servicos_client.go: `GetServiceCanonical`, which follows the redirects of a
-- service. What one request answers is an argument.
pub mod Follows
use app_catalogo.Common.{ℕ, zero, suc, String, Bool, List, [], ◌∷◌, any, str_eq, if◌then◌else◌}
use app_catalogo.Common.Go.{Result, ok, err, Error, message}
use app_catalogo.Common.Text.{is_empty, trim_space}
use app_catalogo.Sync.Mapping.{CartaServiceDetail}

abbrev pub max_carta_service_redirect_hops : ℕ
max_carta_service_redirect_hops = 3

-- The answer of `GetService`: the service, a *ServiceRedirectError with its target, or another error.
pub data Answer : Type 0 where
  found : CartaServiceDetail → Answer
  moved : String → Answer
  failed : Error → Answer

-- The loop, with the hops that are left and the slugs that were asked for.
unfoldable pub follow :
    (String → Answer) → ℕ → List String → String → Result Error (CartaServiceDetail × String)
follow get zero seen current = err (message "carta-servicos: muitos redirects")
follow get (suc hops) seen current =
    if is_empty current
    then err (message "carta-servicos: service slug vazio")
    else if any (str_eq current) seen
    then err (message "carta-servicos: ciclo de redirect")
    else elim (get current) [
      | found d ↦ ok (d, d.slug)
      | failed e ↦ err e
      | moved to ↦ follow get hops (current ∷ seen) (trim_space to)
    ]

unfoldable pub get_service_canonical :
    (String → Answer) → String → Result Error (CartaServiceDetail × String)
get_service_canonical get slug = follow get max_carta_service_redirect_hops [] (trim_space slug)
