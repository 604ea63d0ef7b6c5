-- ===== src/Auxiliary.antt =====
-- platform/aux: the locks and number helpers that the other parts rest on.
pub mod RwLock
pub mod Matrix
pub mod Rng
pub mod Random
