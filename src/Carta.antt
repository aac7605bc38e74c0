-- ===== src/Carta.antt =====
-- internal/repository/carta_repository.go: the local hierarchy of the Carta de Serviços. An error of
-- the database leaves the tables as they are.
pub mod Aliases
pub mod Acyclic
pub mod Resolve
pub mod Detail
pub mod Points
pub mod Pages
pub mod Hierarchy
pub mod Home
pub mod Units
pub mod Services
pub mod Tests
