-- ===== src/Domain.antt =====
-- internal/domain: the rules that have no storage behind them.
pub mod Rules
pub mod Lens
