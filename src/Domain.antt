-- ===== src/Domain.antt =====
-- The commercial domain models: domain/entities.py, domain/runs.py and domain/artifacts.py.
pub mod Entities
pub mod Runs
pub mod Artifacts
