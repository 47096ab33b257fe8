-- ===== src/Sentiment.antt =====
-- src/analysts/sentiment: the sentiment analyst.
pub mod Analyst
pub mod Fences
pub mod Llm
pub mod Scraper
