-- ===== src/Access.antt =====
-- Who a request comes from and what it may do: internal/api/middleware/jwt_verifier.go and
-- internal/api/middleware/user_context.go.
pub mod Cpf
pub mod Claims
pub mod Verifier
pub mod Context
pub mod Tests
