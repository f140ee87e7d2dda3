-- ===== src/Crawl.antt =====
-- internal/crawl: the breadth-first crawl and the discovery of URLs.
pub mod Frontier
pub mod Loop
pub mod Reach
pub mod Pages
pub mod Safety
pub mod SafetyExamples
pub mod Urls
pub mod Examples
