-- ===== src/Api/Types.antt =====
-- internal/api/types.go: what a client sends and gets.
use web_gobbler.Prelude.{ℕ, ℤ, String, Bool, Option, List}
use web_gobbler.Scraper.{Result}
use web_gobbler.Store.Types.{Uuid, Time}

pub record RequestOptions : Type 0 where
  pub timeout_seconds : Option ℤ
  pub max_retries : Option ℤ
  pub follow_redirects : Option Bool
  pub max_pages : Option ℤ
  pub max_depth : Option ℤ
  pub max_urls : Option ℤ
  pub render_js : Option Bool

-- ScrapeRequest, and CrawlRequest with the same fields.
pub record ScrapeRequest : Type 0 where
  pub url : String
  pub extract : List String
  pub options : Option RequestOptions

pub record CrawlRequest : Type 0 where
  pub url : String
  pub extract : List String
  pub options : Option RequestOptions

pub record MapRequest : Type 0 where
  pub url : String
  pub options : Option RequestOptions

pub record JobMeta : Type 0 where
  pub links_count : ℕ
  pub headers_count : ℕ
  pub paragraphs_count : ℕ
  pub markdown_length : ℕ
  pub pages_crawled : ℕ
  pub url_count : ℕ
  pub http_status : ℕ
  pub retries_used : ℕ
  pub truncated : Bool

pub record JobResponse : Type 0 where
  pub job_id : Uuid
  pub status : String
  pub url : String
  pub created_at : Time
  pub updated_at : Option Time
  pub completed : Option Time
  pub duration_ms : Option ℕ
  pub results : Option Result
  pub meta : Option JobMeta
  pub error : Option String
  pub poll_url : Option String

pub record HealthResponse : Type 0 where
  pub status : String
  pub db : String
  pub redis : String
  pub version : String

pub record JobSummary : Type 0 where
  pub job_id : Uuid
  pub url : String
  pub status : String
  pub created_at : Time
  pub updated_at : Time

pub record PaginatedResponse : Type 0 where
  pub jobs : List JobSummary
  pub total : ℕ
  pub page : ℕ
  pub limit : ℕ

-- A json.RawMessage is a text, empty where the field is missing.
pub record ExtractRequest : Type 0 where
  pub schema : String
  pub prompt : String

pub record PageExtract : Type 0 where
  pub url : String
  pub extracted : Option String
  pub error : String

pub record ExtractResponse : Type 0 where
  pub job_id : Uuid
  pub extracted : Option String
  pub pages : List PageExtract

pub data Body : Type 0 where
  error_body : String → Body
  job_body : JobResponse → Body
  status_body : String → Body
  health_body : HealthResponse → Body
  list_body : PaginatedResponse → Body
  extract_body : ExtractResponse → Body
  -- A text that gin or promhttp writes.
  page_body : String → Body

-- c.JSON(code, body)
pub record Response : Type 0 where
  pub code : ℕ
  pub body : Body
