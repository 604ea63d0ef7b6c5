-- ===== src/Quant.antt =====
-- common/quant: the workset that market data flows through, and its entries.
pub mod Workset
pub mod OrderbookEntry
