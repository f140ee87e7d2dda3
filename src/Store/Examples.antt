-- ===== src/Store/Examples.antt =====
-- A table of three jobs for internal/store/store.go, one queued, one being processed and one
-- failed, and a codec that writes nothing but the empty options.
use mathlib.Core.List.{Permᴰ}
use mathlib.Core.Option.{some-injective}
use web_gobbler.Prelude.{
  ◌≤◌, leb, str_eq, str_eq_iff_to, is_empty, not, ◌&&◌, ◌==◌, ap, sym, ◌∙◌, Bool, Bool-cases, inl,
  inr, true, false, Option, none, some, List, [], ◌∷◌, map, ◌≡◌, refl, arith, if◌then◌else◌,
}
use web_gobbler.Scraper.{Result, blank_result}
use web_gobbler.Store.Types.{
  processing, completed, failed, JobOptions, not_found, cannot_cancel, ok, err, Codec, IsFaithful,
}
use web_gobbler.Store.Table.{Row, Db, update_where, select_id}
use web_gobbler.Store.Jobs.{NewJob, new_row, row_job, get_job, claim_job, update_job, cancel_job}
use web_gobbler.Store.Laws.{IsSound, Changes, claimed, if_queued, claim_job_lem}
use web_gobbler.Store.Reads.{completed_job, get_job-completed}
use web_gobbler.Store.Listing.{list_jobs}
use web_gobbler.Store.Sorted.{IsOrdered}
use web_gobbler.Store.Paging.{first_pages, list_jobs_pages}
use web_gobbler.Store.History.{Call, claim, cancel, times_taken, taken_once}

abbrev pub new_job : NewJob
new_job = record { url = "http://h/"; extract = []; options = none }

abbrev pub queued_row : Row
queued_row = new_row 1 10 new_job none

abbrev processing_row : Row
processing_row = record (new_row 2 11 new_job none) { status = processing }

abbrev failed_row : Row
failed_row = record (new_row 3 12 new_job none) { status = failed }

abbrev pub table : Db
table = record { rows = queued_row ∷ processing_row ∷ failed_row ∷ []; faults = [] }

pub table-IsSound : IsSound table
table-IsSound = record {
  no_faults = refl;
  keyed = (
    (λ e. omega (arith, e), (λ e. omega (arith, e), tt)),
    ((λ e. omega (arith, e), tt), (tt, tt)),
  );
}

abbrev empty_options : JobOptions
empty_options = record {
  timeout_seconds = none;
  max_retries = none;
  follow_redirects = none;
  max_pages = none;
  max_depth = none;
  max_urls = none;
  render_js = none;
}

abbrev is_blank : Result → Bool
is_blank r =
    is_empty r.links
    && is_empty r.headers
    && is_empty r.paragraphs
    && str_eq r.markdown ""
    && str_eq r.html ""
    && str_eq r.raw_html ""
    && not r.truncated
    && is_empty r.pages
    && (r.pages_crawled == 0)
    && (r.pages_skipped == 0)
    && is_empty r.urls
    && (r.http_status == 0)
    && (r.duration_ms == 0)

nil : {A : Type 0} (xs : List A) → is_empty xs ≡ true → xs ≡ []
nil [] h = refl
nil (x ∷ xs) h = cc

blank : (r : Result) → is_blank r ≡ true → r ≡ blank_result
blank r h =
    let l : r.links ≡ [] = nil r.links (ground arith) in
    let hs : r.headers ≡ [] = nil r.headers (ground arith) in
    let ps : r.paragraphs ≡ [] = nil r.paragraphs (ground arith) in
    let m : r.markdown ≡ "" = str_eq_iff_to r.markdown "" (ground arith) in
    let t : r.html ≡ "" = str_eq_iff_to r.html "" (ground arith) in
    let w : r.raw_html ≡ "" = str_eq_iff_to r.raw_html "" (ground arith) in
    let b : r.truncated ≡ false = ground arith in
    let pages : r.pages ≡ [] = nil r.pages (ground arith) in
    let k : r.pages_crawled ≡ 0 = ground arith in
    let j : r.pages_skipped ≡ 0 = ground arith in
    let us : r.urls ≡ [] = nil r.urls (ground arith) in
    let st : r.http_status ≡ 0 = ground arith in let d : r.duration_ms ≡ 0 = ground arith in cc

-- No option is set.
abbrev unset : {A : Type 0} → Option A → Bool
unset none = true
unset (some x) = false

abbrev is_unset : JobOptions → Bool
is_unset o =
    unset o.timeout_seconds
    && unset o.max_retries
    && unset o.follow_redirects
    && unset o.max_pages
    && unset o.max_depth
    && unset o.max_urls
    && unset o.render_js

gone : {A : Type 0} (x : Option A) → unset x ≡ true → x ≡ none
gone none h = refl
gone (some x) h = cc

all_gone : (o : JobOptions) → is_unset o ≡ true → o ≡ empty_options
all_gone o h =
    let t : o.timeout_seconds ≡ none = gone o.timeout_seconds (ground arith) in
    let r : o.max_retries ≡ none = gone o.max_retries (ground arith) in
    let f : o.follow_redirects ≡ none = gone o.follow_redirects (ground arith) in
    let p : o.max_pages ≡ none = gone o.max_pages (ground arith) in
    let d : o.max_depth ≡ none = gone o.max_depth (ground arith) in
    let u : o.max_urls ≡ none = gone o.max_urls (ground arith) in
    let j : o.render_js ≡ none = gone o.render_js (ground arith) in cc

abbrev pub bare_codec : Codec
bare_codec = record {
  marshal_result = λ r. if is_blank r then some "{}" else none;
  unmarshal_result = λ s. some blank_result;
  marshal_options = λ o. if is_unset o then some "{}" else none;
  unmarshal_options = λ s. some empty_options;
  jsonb = λ s. s;
}

written : (r : Result) → is_blank r ≡ true → bare_codec.marshal_result r ≡ some "{}"
written r e = rw e refl

unwritten : (r : Result) → is_blank r ≡ false → bare_codec.marshal_result r ≡ none
unwritten r e = rw e refl

pub bare_codec-IsFaithful : IsFaithful bare_codec
bare_codec-IsFaithful = record {
  result_back = λ r s h. elim (Bool-cases (is_blank r)) [
    | inl e ↦
        let same : s ≡ "{}" = sym (some-injective _ _ (sym (written r e) ∙ h)) in
        (ap some (sym (blank r e)), rw same refl)
    | inr e ↦ cc (unwritten r e)
  ];
  options_back = λ o s h. elim (Bool-cases (is_unset o)) [
    | inl e ↦
        let same : s ≡ "{}" = ground (arith, h, e) in (ap some (sym (all_gone o e)), rw same refl)
    | inr e ↦ ground (arith, h, e)
  ];
}

claim_run : (claim_job 1 20 table).0 ≡ ok true
unfolding claim_job update_where
claim_run = refl

cancel_run : (cancel_job 2 20 table).0 ≡ err (cannot_cancel processing)
unfolding cancel_job update_where select_id
cancel_run = refl

update_run : (update_job bare_codec 9 completed none none 0 20 table).0 ≡ err (not_found 9)
unfolding update_job update_where
update_run = refl

claim_job_example :
    ((claim_job 1 20 table).0 ≡ ok true)
    × Changes 1 (if_queued (claimed 20)) table (claim_job 1 20 table).1
    × IsSound (claim_job 1 20 table).1
unfolding select_id
claim_job_example = claim_job_lem 1 table table-IsSound 20

get_job-completed_example :
    (get_job bare_codec 2
      (update_job bare_codec 2 completed (some blank_result) none 0 20 table).1).0
    ≡ ok (completed_job blank_result 0 20 (row_job bare_codec processing_row))
unfolding select_id
get_job-completed_example =
    get_job-completed bare_codec bare_codec-IsFaithful 2 20 table table-IsSound blank_result 0
      processing_row refl refl

-- Two workers and a client after one job.
abbrev race : List Call
race = claim 1 20 ∷ cancel 1 21 ∷ claim 1 22 ∷ []

race_run : times_taken bare_codec 1 race table ≡ 1
unfolding times_taken claim_job cancel_job update_where select_id
race_run = refl

taken_once_example : times_taken bare_codec 1 race table ≤ 1
taken_once_example = taken_once bare_codec 1 race table

abbrev put_newest_first : Row → List Row → List Row
put_newest_first r [] = r ∷ []
put_newest_first r (s ∷ rest) =
    let later = put_newest_first r rest in
    if leb s.created_at r.created_at then r ∷ s ∷ rest else s ∷ later

abbrev newest_first : List Row → List Row
newest_first [] = []
newest_first (r ∷ rs) = put_newest_first r (newest_first rs)

abbrev rows_by_time : List Row
rows_by_time = failed_row ∷ processing_row ∷ queued_row ∷ []

rows-IsOrdered : IsOrdered table.rows rows_by_time
rows-IsOrdered = (
  Permᴰ.trans (Permᴰ.cons refl (Permᴰ.swap refl refl))
      (Permᴰ.trans (Permᴰ.swap refl refl) (Permᴰ.cons refl (Permᴰ.swap refl refl))),
  ((omega arith, (omega arith, tt)), ((omega arith, tt), (tt, tt))),
)

list_run :
    first_pages bare_codec (λ k. newest_first) 2 "" table 2 ≡ map (row_job bare_codec) rows_by_time
unfolding first_pages list_jobs
list_run = refl

list_jobs_pages_example :
    first_pages bare_codec (λ k. newest_first) 2 "" table 2 ≡ map (row_job bare_codec) rows_by_time
list_jobs_pages_example =
    list_jobs_pages bare_codec 2 "" table refl (omega arith) (omega arith) (λ k. newest_first)
      rows_by_time
      (
        ((λ e. omega (arith, e)), ((λ e. omega (arith, e)), tt)),
        (((λ e. omega (arith, e)), tt), (tt, tt)),
      )
      rows-IsOrdered (λ k. rows-IsOrdered) 2 (omega arith) (omega arith)
