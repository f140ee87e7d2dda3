-- ===== src/Store/Types.antt =====
-- internal/store/store.go and json.go: jobs, their statuses and options, the store's errors, and
-- the JSON of the columns `options` and `result`.
use web_gobbler.Prelude.{
  ℕ, ℤ, String, str_eq, Bool, true, false, Option, none, some, List, ◌≡◌, if◌then◌else◌,
}
use web_gobbler.Scraper.{Result}

-- A uuid.UUID is a number of 128 bits; a time.Time is an instant.
abbrev pub Uuid : Type 0
Uuid = ℕ

abbrev pub Time : Type 0
Time = ℕ

pub data JobStatus : Type 0 where
  queued processing completed failed : JobStatus

-- The text of a status in the table and on the wire.
abbrev pub status_text : JobStatus → String
status_text queued = "queued"
status_text processing = "processing"
status_text completed = "completed"
status_text failed = "failed"

-- `a == b` on statuses.
abbrev pub is_status : JobStatus → JobStatus → Bool
is_status queued queued = true
is_status processing processing = true
is_status completed completed = true
is_status failed failed = true
is_status _ _ = false

pub record JobOptions : Type 0 where
  pub timeout_seconds : Option ℤ
  pub max_retries : Option ℤ
  pub follow_redirects : Option Bool
  pub max_pages : Option ℤ
  pub max_depth : Option ℤ
  pub max_urls : Option ℤ
  pub render_js : Option Bool

pub record Job : Type 0 where
  pub id : Uuid
  pub url : String
  pub extract : List String
  pub options : Option JobOptions
  pub status : JobStatus
  pub result : Option Result
  pub error_msg : Option String
  pub http_status : Option ℕ
  pub retries_used : ℕ
  pub duration_ms : Option ℕ
  pub created_at : Time
  pub updated_at : Time
  pub completed_at : Option Time

-- ErrNotFound, ErrCannotCancel with the status that it prints, and whatever PostgreSQL or the
-- connection to it refused.
pub data StoreError : Type 0 where
  not_found : Uuid → StoreError
  cannot_cancel : JobStatus → StoreError
  db_failed : StoreError

-- (value, error)
pub data Reply {ℓ} (A : Type ℓ) : Type ℓ where
  ok : A → Reply A
  err : StoreError → Reply A

-- What encoding/json and PostgreSQL's JSONB type do to the values of the two columns. `jsonb` is
-- the text that a stored document is read back as.
pub record Codec : Type 0 where
  pub marshal_result : Result → Option String
  pub unmarshal_result : String → Option Result
  pub marshal_options : JobOptions → Option String
  pub unmarshal_options : String → Option JobOptions
  pub jsonb : String → String

-- A value that can be written is read back, and no document is the empty text.
pub record IsFaithful (c : Codec) : Type 0 where
  pub result_back :
      (r : Result) (s : String)
      → c.marshal_result r ≡ some s
      → (c.unmarshal_result (c.jsonb s) ≡ some r) × (str_eq (c.jsonb s) "" ≡ false)
  pub options_back :
      (o : JobOptions) (s : String)
      → c.marshal_options o ≡ some s
      → (c.unmarshal_options (c.jsonb s) ≡ some o) × (str_eq (c.jsonb s) "" ≡ false)

-- resultToJSON
unfoldable pub result_to_json : Codec → Option Result → Option String
result_to_json c none = none
result_to_json c (some r) = c.marshal_result r

-- parseResultJSON
unfoldable pub parse_result_json : Codec → Option String → Option Result
parse_result_json c none = none
parse_result_json c (some s) = if str_eq s "" then none else c.unmarshal_result s

-- parseOptionsJSON
unfoldable pub parse_options_json : Codec → Option String → Option JobOptions
parse_options_json c none = none
parse_options_json c (some s) = if str_eq s "" then none else c.unmarshal_options s
