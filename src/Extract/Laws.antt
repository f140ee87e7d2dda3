-- ===== src/Extract/Laws.antt =====
-- What the client of internal/extract sends, and what it lets through.
use Prim.Native.String.{len}
use text.Mathlib.TextPositions.{len-append}
use web_gobbler.Prelude.{
  ◌*◌, ◌≤◌, String, str_eq, str_eq_iff_from, str_append, cut, len-cut, true, false, ◌&&◌, ltb,
  Option, none, some, List, [], ◌∷◌, All, ◌≡◌, ◌≢◌, ◌⊎◌, inl, inr, refl, arith, Option-cases,
  Bool-cases,
}
use web_gobbler.Extract.{
  Config, is_enabled, max_markdown_chars, max_prompt_chars, HttpRequest, Llm, Extraction, extracted,
  user_message, chat_request, http_request, first_choice, read_answer, extract,
}

-- Of a prompt within its limit, however long the text is.
user_message_bound :
    (markdown prompt : String)
    → len prompt ≤ max_prompt_chars
    → len (user_message (cut max_markdown_chars markdown) prompt) ≤ 104_007
user_message_bound markdown prompt short =
    let a = len-append prompt (str_append "\n\n---\n\n" (cut max_markdown_chars markdown)) in
    let b = len-append "\n\n---\n\n" (cut max_markdown_chars markdown) in
    let k = len-cut max_markdown_chars markdown in
    elim (Bool-cases (str_eq prompt "")) [
      | inl e ↦ rw e (omega (arith, k))
      | inr e ↦ rw e (omega (arith, a, b, k, short))
    ]

module _ (llm : Llm) (cfg : Config) (markdown schema prompt : String) (log : List HttpRequest) where
  -- One request more, with the key, for a question within its limits.
  pub record Asked (out : Extraction × List HttpRequest) : Type 0 where
    pub raw : String
    pub body : llm.marshal (chat_request cfg markdown schema prompt) ≡ some raw
    pub sent : out.1 ≡ http_request cfg raw ∷ log
    pub keyed : cfg.api_key ≢ ""
    pub question : (prompt ≢ "") ⊎ (schema ≢ "")
    pub short : len prompt ≤ max_prompt_chars
    pub bounded :
        All (λ m. len m.content ≤ 104_007) (chat_request cfg markdown schema prompt).messages
    pub valid : (text : String) → out.0 ≡ extracted text → llm.is_json text ≡ true

  first_choice-valid :
      (contents : List String) (text : String)
      → first_choice llm contents ≡ extracted text
      → llm.is_json text ≡ true
  first_choice-valid [] text h = cc
  first_choice-valid (content ∷ rest) text h =
      elim (Bool-cases (llm.is_json (llm.trim_space content))) [
        | inl e ↦ ground (arith, h, e)
        | inr e ↦ ground (arith, h, e)
      ]

  read_answer-valid :
      (body : Option String) (text : String)
      → read_answer llm body ≡ extracted text
      → llm.is_json text ≡ true
  unfolding read_answer
  read_answer-valid none text h = cc
  read_answer-valid (some body) text h =
      elim (Option-cases (llm.unmarshal (cut (2 * 1_048_576) body))) [
        | inl e ↦ ground (arith, h, e)
        | inr (parsed, e) ↦ elim (Option-cases parsed.error) [
          | inl none_there ↦
              first_choice-valid parsed.choices text (ground (arith, h, e, none_there))
          | inr (message, there) ↦ ground (arith, h, e, there)
        ]
      ]

  messages_bound :
      len prompt ≤ max_prompt_chars
      → All (λ m. len m.content ≤ 104_007) (chat_request cfg markdown schema prompt).messages
  unfolding chat_request
  messages_bound short = (omega arith, (user_message_bound markdown prompt short, tt))

  -- A request is sent.
  asked :
      (raw : String)
      → llm.marshal (chat_request cfg markdown schema prompt) ≡ some raw
      → is_enabled cfg ≡ true
      → (str_eq prompt "" && str_eq schema "") ≡ false
      → ltb max_prompt_chars (len prompt) ≡ false
      → Asked (read_answer llm (llm.answer log (http_request cfg raw)), http_request cfg raw ∷ log)
  asked raw e on something few = record {
    raw = raw;
    body = e;
    sent = refl;
    keyed = λ no_key. ground (arith, on, str_eq_iff_from cfg.api_key "" no_key);
    question = elim (Bool-cases (str_eq prompt "")) [
      | inl blank ↦ inr (λ h. ground (arith, something, blank, str_eq_iff_from schema "" h))
      | inr there ↦ inl (λ h. ground (arith, there, str_eq_iff_from prompt "" h))
    ];
    short = ground (arith, few);
    bounded = messages_bound (ground (arith, few));
    valid = λ text h. read_answer-valid (llm.answer log (http_request cfg raw)) text h;
  }

  -- Extract sends nothing and then gives no value, or one request: that of the key, the cut text,
  -- the schema and the prompt, with a key, a schema or a prompt that is not empty, a prompt of at
  -- most 4,000 bytes, and each message of the request at most 104,007 long, however long the text;
  -- a value that it then gives is valid JSON.
  pub extract_lem :
      let out = extract llm cfg markdown schema prompt log in
      ((out.1 ≡ log) × ((text : String) → out.0 ≢ extracted text)) ⊎ Asked out
  unfolding extract
  extract_lem = elim (Bool-cases (is_enabled cfg)) [
    | inr e ↦ inl (rw e (refl, λ text h. cc h))
    | inl on ↦ elim (Bool-cases (str_eq prompt "" && str_eq schema "")) [
      | inl e ↦ inl (rw (on, e) (refl, λ text h. cc h))
      | inr something ↦ elim (Bool-cases (ltb max_prompt_chars (len prompt))) [
        | inl e ↦ inl (rw (on, something, e) (refl, λ text h. cc h))
        | inr few ↦ elim (Option-cases (llm.marshal (chat_request cfg markdown schema prompt))) [
          | inl e ↦ inl (rw (on, something, few, e) (refl, λ text h. cc h))
          | inr (raw, e) ↦ elim (Bool-cases (llm.is_request (http_request cfg raw).url)) [
            | inr bad ↦ inl (rw (on, something, few, e, bad) (refl, λ text h. cc h))
            | inl good ↦ inr (rw (on, something, few, e, good) (asked raw e on something few))
          ]
        ]
      ]
    ]
  ]
