-- ===== src/Overlay.antt =====
-- internal/overlay: which devices of a network may talk to each other directly.
pub mod Types
pub mod Masks
pub mod Grants
pub mod Opened
pub mod Mesh
pub mod Mutual
pub mod Generations
mod Tests
