-- ===== src/Sqldb.antt =====
-- platform/sqldb: the SQL library, over libpq: its pool of connections, its transactions, and the
-- reading of binary columns.
pub mod Database
pub mod Transaction
pub mod Bytea
pub mod Connection
