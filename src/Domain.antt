-- ===== src/Domain.antt =====
-- src/domain: what is downloaded, from where, and in which parts.
pub mod Http
pub mod Spec
pub mod Source
