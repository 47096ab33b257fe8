-- ===== src/Groww.antt =====
-- src/pkg/groww: the broker's REST client.
pub mod Types
pub mod OrderTypes
pub mod DataTypes
pub mod Requests
pub mod Errors
pub mod Client
pub mod References
pub mod FeedTypes
pub mod Feed
pub mod History
pub mod Instruments
pub mod Limiter
