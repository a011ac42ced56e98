-- ===== src/Net.antt =====
-- The networking layer: include/Net and src/Net.
pub mod Buffer
pub mod Connection
pub mod Socket
