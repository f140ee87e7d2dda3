-- ===== src/Api/Validator.antt =====
-- internal/api/validator.go: the checks of a request. A nil error is `none`.
use web_gobbler.Prelude.{
  ℤ, pos, int_ltb, String, str_eq, str_append, Bool, false, not, ◌&&◌, ◌||◌, Option, none, some,
  List, [], ◌∷◌, contains, if◌then◌else◌,
}
use web_gobbler.Scraper.{Net}
use web_gobbler.Api.Types.{RequestOptions, ScrapeRequest, CrawlRequest, MapRequest}

pub data Invalid : Type 0 where
  url_required : Invalid
  url_invalid : Invalid
  extract_invalid : String → Invalid
  timeout_range : Invalid
  retries_range : Invalid
  pages_range : Invalid
  depth_range : Invalid
  urls_range : Invalid

-- Go's strings.ToLower and the verb %q of fmt, of which nothing is assumed.
pub record Strings : Type 0 where
  pub to_lower : String → String
  pub quote : String → String

-- validExtractTypes
abbrev pub valid_extract_types : List String
valid_extract_types = "links" ∷ "headers" ∷ "paragraphs" ∷ "markdown" ∷ "html" ∷ "raw_html" ∷ []

-- err.Error()
unfoldable pub message : Strings → Invalid → String
message s url_required = "url is required"
message s url_invalid = "url must be a valid http:// or https:// URL"
message s (extract_invalid t) =
    str_append "invalid extract type " (
      str_append (s.quote t)
        ": must be one of links, headers, paragraphs, markdown, html, raw_html")
message s timeout_range = "timeout_seconds must be between 1 and 60"
message s retries_range = "max_retries must be between 0 and 5"
message s pages_range = "max_pages must be between 1 and 100"
message s depth_range = "max_depth must be between 0 and 5"
message s urls_range = "max_urls must be between 1 and 500"

-- `p != nil && (*p < lo || *p > hi)`
unfoldable pub out_of_range : Option ℤ → ℤ → ℤ → Bool
out_of_range none lo hi = false
out_of_range (some n) lo hi = int_ltb n lo || int_ltb hi n

unfoldable pub validate_options : RequestOptions → Option Invalid
validate_options o =
    if out_of_range o.timeout_seconds (pos 1) (pos 60)
    then some timeout_range
    else if out_of_range o.max_retries (pos 0) (pos 5)
    then some retries_range
    else if out_of_range o.max_pages (pos 1) (pos 100)
    then some pages_range
    else if out_of_range o.max_depth (pos 0) (pos 5)
    then some depth_range
    else if out_of_range o.max_urls (pos 1) (pos 500)
    then some urls_range
    else none

abbrev pub check_options : Option RequestOptions → Option Invalid
check_options none = none
check_options (some o) = validate_options o

unfoldable pub validate_extract : Strings → List String → Option Invalid
validate_extract s [] = none
validate_extract s (t ∷ ts) =
    if not (contains valid_extract_types (s.to_lower t))
    then some (extract_invalid t)
    else validate_extract s ts

-- The check of the URL that the three functions below begin with.
unfoldable pub validate_url : Net → String → Option Invalid
validate_url net url = if str_eq url "" then some url_required else elim (net.parse url) [
  | none ↦ some url_invalid
  | some u ↦
      if (not (str_eq u.scheme "http") && not (str_eq u.scheme "https")) || str_eq u.host ""
      then some url_invalid
      else none
]

-- `if err := first; err != nil { return err }`, and on to the next check.
infixr 30 ◌orelse◌
abbrev pub ◌orelse◌ : Option Invalid → Option Invalid → Option Invalid
none orelse next = next
some e orelse next = some e

module _ (net : Net) (strings : Strings) where
  unfoldable pub validate_scrape_request : ScrapeRequest → Option Invalid
  validate_scrape_request req =
      validate_url net req.url
      orelse validate_extract strings req.extract
      orelse check_options req.options

  unfoldable pub validate_crawl_request : CrawlRequest → Option Invalid
  validate_crawl_request req =
      validate_url net req.url
      orelse validate_extract strings req.extract
      orelse check_options req.options

unfoldable pub validate_map_request : Net → MapRequest → Option Invalid
validate_map_request net req = validate_url net req.url orelse check_options req.options
