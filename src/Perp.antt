-- ===== src/Perp.antt =====
-- internal/app/market/perp: the market of perpetual contracts.
pub mod Executor
pub mod RiskContext
pub mod Router
