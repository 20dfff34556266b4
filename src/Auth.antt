-- ===== src/Auth.antt =====
-- auth.py: principals, roles, API keys and OIDC tokens, a module for each part.
pub mod Roles
pub mod Tokens
pub mod Keys
pub mod Oidc
pub mod Composite
mod Examples
