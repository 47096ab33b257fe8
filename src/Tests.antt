-- ===== src/Tests.antt =====
-- Runs of the models on concrete inputs, and each theorem with hypotheses at an input where they
-- hold. Floats are the decimals of Float.Fixed.
pub mod Fixtures
pub mod RiskTests
pub mod TraderTests
pub mod ScoutTests
pub mod StoreTests
pub mod ReplayTests
pub mod ReportTests
pub mod GrowwTests
pub mod FeedTests
pub mod SentimentTests
pub mod RecorderTests
