-- ===== src/BinancePay.antt =====
-- The Binance Pay protocol: internal/binancepay.
pub mod Types
pub mod Client
pub mod Webhook
