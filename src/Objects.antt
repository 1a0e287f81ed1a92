-- ===== src/Objects.antt =====
-- core/objects.
pub mod Session
pub mod SessionProxy
