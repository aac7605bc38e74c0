-- ===== src/Access/Claims.antt =====
-- What a verified token says: `jwtClaims` of internal/api/middleware/user_context.go.
use app_catalogo.Common.{String, List}

pub record Claims : Type 0 where
  pub subject : String
  pub authorized_party : String
  pub preferred_username : String
  pub name : String
  pub email : String
  -- client and its roles
  pub resource_access : List (String × List String)
