-- ===== src/Trade.antt =====
-- application/usecases/trade: executing a trade, closing a position, managing an open one and
-- synchronising it with the reports of the exchange.
pub mod Journal
pub mod Dto
pub mod Execute
pub mod Close
pub mod Sync
pub mod Manage
