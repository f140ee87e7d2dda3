-- ===== src/Queue/Examples.antt =====
-- One message for internal/queue/queue.go, and a codec that writes no other.
use web_gobbler.Prelude.{
  str_eq, str_eq_iff_to, ◌&&◌, String, Bool, true, false, Bool-cases, Option, none, some, List, [],
  ◌∷◌, ◌≡◌, refl, sym, ap, inl, inr, arith, if◌then◌else◌,
}
use web_gobbler.Queue.{PayloadOptions, JobPayload, kind_scrape}
use web_gobbler.Queue.Redis.{
  Redis, PayloadCodec, IsFaithful, taken, timed_out, failed, pop_last, enqueue, dequeue,
  queue_depth,
}
use web_gobbler.Queue.Refines.{
  Call, put, take, count, put_done, took, counted, run, run_spec, view, queue_refines,
}

abbrev unset_options : PayloadOptions
unset_options = record {
  timeout_seconds = none;
  max_retries = none;
  follow_redirects = none;
  max_pages = none;
  max_depth = none;
  max_urls = none;
  render_js = none;
}

abbrev pub plain_payload : JobPayload
plain_payload = record {
  job_id = "1";
  kind = kind_scrape;
  url = "a";
  extract = "links" ∷ [];
  options = some unset_options;
}

abbrev unset : {A : Type 0} → Option A → Bool
unset none = true
unset (some x) = false

abbrev only_links : List String → Bool
only_links [] = false
only_links (x ∷ []) = str_eq x "links"
only_links (x ∷ y ∷ xs) = false

abbrev is_unset : Option PayloadOptions → Bool
is_unset none = false
is_unset (some o) =
    unset o.timeout_seconds
    && unset o.max_retries
    && unset o.follow_redirects
    && unset o.max_pages
    && unset o.max_depth
    && unset o.max_urls
    && unset o.render_js

abbrev is_plain : JobPayload → Bool
is_plain p =
    str_eq p.job_id "1"
    && str_eq p.kind kind_scrape
    && str_eq p.url "a"
    && only_links p.extract
    && is_unset p.options

gone : {A : Type 0} (x : Option A) → unset x ≡ true → x ≡ none
gone none h = refl
gone (some x) h = cc

all_gone : (o : Option PayloadOptions) → is_unset o ≡ true → o ≡ some unset_options
all_gone none h = cc
all_gone (some o) h =
    let t : o.timeout_seconds ≡ none = gone o.timeout_seconds (ground arith) in
    let r : o.max_retries ≡ none = gone o.max_retries (ground arith) in
    let f : o.follow_redirects ≡ none = gone o.follow_redirects (ground arith) in
    let p : o.max_pages ≡ none = gone o.max_pages (ground arith) in
    let d : o.max_depth ≡ none = gone o.max_depth (ground arith) in
    let u : o.max_urls ≡ none = gone o.max_urls (ground arith) in
    let j : o.render_js ≡ none = gone o.render_js (ground arith) in cc

links : (xs : List String) → only_links xs ≡ true → xs ≡ "links" ∷ []
links [] h = cc
links (x ∷ []) h = ap (λ y. y ∷ []) (str_eq_iff_to x "links" h)
links (x ∷ y ∷ xs) h = cc

plain : (p : JobPayload) → is_plain p ≡ true → p ≡ plain_payload
plain p h =
    let j : p.job_id ≡ "1" = str_eq_iff_to p.job_id "1" (ground arith) in
    let k : p.kind ≡ kind_scrape = str_eq_iff_to p.kind kind_scrape (ground arith) in
    let u : p.url ≡ "a" = str_eq_iff_to p.url "a" (ground arith) in
    let e : p.extract ≡ "links" ∷ [] = links p.extract (ground arith) in
    let o : p.options ≡ some unset_options = all_gone p.options (ground arith) in cc

abbrev pub plain_payloads : PayloadCodec
plain_payloads = record {
  marshal = λ p. if is_plain p then some "plain" else none;
  unmarshal = λ s. if str_eq s "plain" then some plain_payload else none;
}

pub plain_payloads-IsFaithful : IsFaithful plain_payloads
plain_payloads-IsFaithful = record {
  back = λ p s h. elim (Bool-cases (is_plain p)) [
    | inl e ↦ let same : s ≡ "plain" = ground (arith, h, e) in rw same (ap some (sym (plain p e)))
    | inr e ↦ ground (arith, h, e)
  ];
}

-- A message that no worker can read is at the head, and the third command is refused.
abbrev broken : Redis
broken = record { items = "{" ∷ []; faults = false ∷ false ∷ true ∷ [] }

abbrev calls : List Call
calls = put plain_payload ∷ count ∷ take ∷ take ∷ take ∷ take ∷ []

queue_run :
    (run plain_payloads calls broken).0
    ≡ put_done true
      ∷ counted (some 2)
      ∷ took failed
      ∷ took failed
      ∷ took (taken plain_payload)
      ∷ took timed_out
      ∷ []
unfolding run enqueue dequeue queue_depth pop_last
queue_run = refl

queue_refines_example :
    ((run plain_payloads calls broken).0
      ≡ (run_spec plain_payloads calls (view plain_payloads broken)).0)
    × (view plain_payloads (run plain_payloads calls broken).1
        ≡ (run_spec plain_payloads calls (view plain_payloads broken)).1)
queue_refines_example = queue_refines plain_payloads plain_payloads-IsFaithful calls broken
