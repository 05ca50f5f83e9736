-- ===== src/Api.antt =====
-- apps/api: the NestJS service.
pub mod Auth
pub mod Indexer
pub mod Tokens
pub mod KeyRing
pub mod RateLimit
pub mod Candles
pub mod Jwt
pub mod Webhooks
pub mod TvlAlerts
pub mod AdminGuards
pub mod Cache
pub mod PriceCandles
pub mod PriceStream
