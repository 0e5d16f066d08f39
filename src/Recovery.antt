-- ===== src/Recovery.antt =====
-- quanttick/exchanges/recovery.go and quanttick/exchanges/seen_trades.go: what the adapters share to
-- stay within the venues' limits and to emit every trade once.
pub mod Limiter
pub mod Seen
pub mod Throttle
