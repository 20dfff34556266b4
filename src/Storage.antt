-- ===== src/Storage.antt =====
-- The storage layer: storage/models.py, the repositories over it, and the store of report files.
pub mod Database
pub mod RunRepository
pub mod Repositories
pub mod ArtifactRepository
pub mod ArtifactStore
