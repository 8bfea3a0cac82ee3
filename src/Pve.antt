-- ===== src/Pve.antt =====
-- The API client that three modules copy, and how its users read a reply.
pub mod Http
pub mod Reading
