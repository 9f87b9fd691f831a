-- ===== src/Oid.antt =====
-- The object identifier registry of listcerts (oid_registry.c and its headers).
pub mod Registry
pub mod Tables
pub mod Dotted
pub mod Lookup
pub mod Sprint
pub mod Contents
pub mod Search
