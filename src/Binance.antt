-- ===== src/Binance.antt =====
-- src/policies/binancepolicy.h
pub mod Query
pub mod Endpoints
pub mod Templates
pub mod Feeds
