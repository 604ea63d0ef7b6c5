-- ===== src/Cgatepp.antt =====
-- The wrapper of the exchange library: services/cgatepp.
pub mod Listener
pub mod Record
pub mod Volumes
pub mod Dumper
