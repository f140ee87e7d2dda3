-- ===== src/Extract.antt =====
-- internal/extract/extract.go: one call of a language model's HTTP API for each text, on a log of
-- the requests that were sent, the last one first.
pub mod Laws
pub mod Examples
use Prim.Native.String.{len}
use web_gobbler.Prelude.{
  ℕ, ◌*◌, String, str_eq, str_append, cut, Bool, true, false, not, ◌&&◌, ltb, Option, none, some,
  List, [], ◌∷◌, if◌then◌else◌,
}

abbrev pub max_markdown_chars : ℕ
max_markdown_chars = 100_000

abbrev pub max_prompt_chars : ℕ
max_prompt_chars = 4_000

-- The Extractor interface: a text, a schema (empty for none) and a prompt, on a state of its own;
-- `none` for its error.
abbrev pub Extractor : Type 0 → Type 0
Extractor E = String → String → String → E → Option String × E

pub record Config : Type 0 where
  pub api_key : String
  pub base_url : String
  pub model : String

abbrev pub or_else : String → String → String
or_else s fallback = if str_eq s "" then fallback else s

-- FromEnv, on os.Getenv (empty where a variable is not set) and strings.TrimRight(_, "/").
unfoldable pub from_env : (String → String) → (String → String) → Config
from_env getenv trim_slashes = record {
  api_key = getenv "LLM_API_KEY";
  base_url =
      trim_slashes
        (or_else (getenv "LLM_BASE_URL") "https://generativelanguage.googleapis.com/v1beta/openai");
  model = or_else (getenv "LLM_MODEL") "gemini-2.5-flash";
}

-- Enabled
abbrev pub is_enabled : Config → Bool
is_enabled cfg = not (str_eq cfg.api_key "")

pub record ChatMessage : Type 0 where
  pub role : String
  pub content : String

pub record JsonSchemaWrap : Type 0 where
  pub name : String
  pub strict : Bool
  pub schema : String

pub record RespFormat : Type 0 where
  pub kind : String
  pub json_schema : Option JsonSchemaWrap

pub record ChatRequest : Type 0 where
  pub model : String
  pub messages : List ChatMessage
  pub response_format : Option RespFormat

-- What the client reads of an answer: the contents of its choices, and the error's message.
pub record ChatResponse : Type 0 where
  pub choices : List String
  pub error : Option String

-- A POST: its URL, its body, and the two headers.
pub record HttpRequest : Type 0 where
  pub url : String
  pub body : String
  pub content_type : String
  pub authorization : String

-- encoding/json, net/http and strings.TrimSpace. The answer to a request, `none` for an error, may
-- depend on all requests before it.
pub record Llm : Type 0 where
  pub marshal : ChatRequest → Option String
  pub is_request : String → Bool
  pub answer : List HttpRequest → HttpRequest → Option String
  pub unmarshal : String → Option ChatResponse
  pub trim_space : String → String
  pub is_json : String → Bool

-- The errors of Extract, and its value.
pub data Extraction : Type 0 where
  not_configured nothing_asked prompt_too_long not_sent request_failed invalid_response llm_error
        empty_response non_json :
      Extraction
  extracted : String → Extraction

-- The body of the request.
abbrev pub user_message : String → String → String
user_message md prompt =
    if not (str_eq prompt "") then str_append prompt (str_append "\n\n---\n\n" md) else md

abbrev pub resp_format : String → RespFormat
resp_format schema =
    if not (str_eq schema "")
    then record {
      kind = "json_schema";
      json_schema = some (record { name = "extract"; strict = false; schema = schema });
    }
    else record { kind = "json_object"; json_schema = none }

unfoldable pub chat_request : Config → String → String → String → ChatRequest
chat_request cfg markdown schema prompt = record {
  model = cfg.model;
  messages =
      record {
        role = "system";
        content = "Extract structured data from the markdown. Reply with JSON only.";
      }
      ∷ record { role = "user"; content = user_message (cut max_markdown_chars markdown) prompt }
      ∷ [];
  response_format = some (resp_format schema);
}

abbrev pub http_request : Config → String → HttpRequest
http_request cfg raw = record {
  url = str_append cfg.base_url "/chat/completions";
  body = raw;
  content_type = "application/json";
  authorization = str_append "Bearer " cfg.api_key;
}

module _ (llm : Llm) where
  abbrev checked_json : String → Extraction
  checked_json content = if not (llm.is_json content) then non_json else extracted content

  abbrev pub first_choice : List String → Extraction
  first_choice [] = empty_response
  first_choice (content ∷ rest) = checked_json (llm.trim_space content)

  -- What Extract makes of an answer's body, of which it reads at most 2 MiB.
  unfoldable pub read_answer : Option String → Extraction
  read_answer none = request_failed
  read_answer (some body) = elim (llm.unmarshal (cut (2 * 1_048_576) body)) [
    | none ↦ invalid_response
    | some parsed ↦ elim parsed.error [ some text ↦ llm_error | none ↦ first_choice parsed.choices ]
  ]

  -- Extract
  unfoldable pub extract :
      Config → String → String → String → List HttpRequest → Extraction × List HttpRequest
  extract cfg markdown schema prompt log =
      if not (is_enabled cfg)
      then (not_configured, log)
      else if str_eq prompt "" && str_eq schema ""
      then (nothing_asked, log)
      else if ltb max_prompt_chars (len prompt)
      then (prompt_too_long, log)
      else elim (llm.marshal (chat_request cfg markdown schema prompt)) [
        | none ↦ (not_sent, log)
        | some raw ↦
            let req = http_request cfg raw in
            if not (llm.is_request req.url)
            then (not_sent, log)
            else (read_answer (llm.answer log req), req ∷ log)
      ]

  abbrev value_of : Extraction → Option String
  value_of (extracted text) = some text
  value_of _ = none

  -- The client as an Extractor.
  unfoldable pub client_extract : Config → Extractor (List HttpRequest)
  client_extract cfg markdown schema prompt log =
      let (answer, log') = extract cfg markdown schema prompt log in (value_of answer, log')
