-- ===== src/Atlas.antt =====
-- The catalogue of ATLAS techniques: atlas/registry.py.
pub mod Registry
