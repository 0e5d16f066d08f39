-- ===== src/Exchanges.antt =====
-- quanttick/exchanges: what the adapters share, and the adapters of Binance, Bitfinex, Coinbase and
-- Deribit.
pub mod Runtime
pub mod Protocol
pub mod Binance
pub mod Bitfinex
pub mod Coinbase
pub mod Deribit
