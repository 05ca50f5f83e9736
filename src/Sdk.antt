-- ===== src/Sdk.antt =====
-- packages/sdk/src: the client-side arithmetic of positions and quotes.
pub mod PositionMath
pub mod Quote
