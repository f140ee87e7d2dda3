-- ===== src/Queue.antt =====
-- internal/queue/queue.go: the message that the API hands to the workers.
pub mod Redis
pub mod Refines
pub mod Examples
use web_gobbler.Prelude.{ℤ, String, Bool, Option, List}

pub record PayloadOptions : Type 0 where
  pub timeout_seconds : Option ℤ
  pub max_retries : Option ℤ
  pub follow_redirects : Option Bool
  pub max_pages : Option ℤ
  pub max_depth : Option ℤ
  pub max_urls : Option ℤ
  pub render_js : Option Bool

pub record JobPayload : Type 0 where
  pub job_id : String
  pub kind : String
  pub url : String
  pub extract : List String
  pub options : Option PayloadOptions

abbrev pub kind_scrape : String
kind_scrape = "scrape"

abbrev pub kind_crawl : String
kind_crawl = "crawl"

abbrev pub kind_map : String
kind_map = "map"
