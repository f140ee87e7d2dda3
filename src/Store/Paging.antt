-- ===== src/Store/Paging.antt =====
-- The pages of ListJobs (internal/store/store.go).
use mathlib.Core.List.{map-append}
use native.Mathlib.Nat.{suc-mul}
use web_gobbler.Prelude.{
  ℕ, zero, suc, ◌+◌, ◌-◌, ◌*◌, ◌^◌, ◌%◌, ◌≤◌, ◌<◌, pos, wrap64, String, List, [], ◌++◌, map, take,
  drop, take-drop, take_all, length, ◌≡◌, sym, ap, ◌∙◌, arith,
}
use web_gobbler.Store.Types.{Job, Reply, ok, err, Codec}
use web_gobbler.Store.Table.{Row, Db}
use web_gobbler.Store.Jobs.{row_job}
use web_gobbler.Store.Sorted.{TimesDiffer, IsOrdered, IsOrdered-length, ordered_once}
use web_gobbler.Store.Listing.{limit_or_20, page_or_one, matching, offset_of, listed, list_jobs}

abbrev jobs_of : Reply (List Job × ℕ) → List Job
jobs_of (ok (jobs, total)) = jobs
jobs_of (err e) = []

small_offset : (n : ℕ) → n < 2 ^ 63 → wrap64 (pos n) ≡ pos n
small_offset n h = let same : n % 18446744073709551616 ≡ n = omega arith in rw same (ground arith)

-- The first pages, one after the other, as a client reads them; each query orders the rows its own
-- way.
unfoldable pub first_pages : Codec → (ℕ → List Row → List Row) → ℕ → String → Db → ℕ → List Job
first_pages c orders limit filter db zero = []
first_pages c orders limit filter db (suc k) =
    first_pages c orders limit filter db k
    ++ jobs_of (list_jobs c (orders k) (pos (suc k)) (pos limit) filter db).0

module _ (c : Codec) (limit : ℕ) (filter : String) (db : Db) (calm : db.faults ≡ [])
    (low : 1 ≤ limit) (high : limit ≤ 100) where
  list_jobs-calm :
      (order : List Row → List Row) (k : ℕ)
      → k * limit < 2 ^ 63
      → (list_jobs c order (pos (suc k)) (pos limit) filter db).0
        ≡ ok (
          map (row_job c) (take limit (drop (k * limit) (order (matching filter db.rows)))),
          length (matching filter db.rows),
        )
  unfolding list_jobs
  list_jobs-calm order k h =
      let limit_same : limit_or_20 (pos limit) ≡ limit = ground arith in
      let page_same : page_or_one (pos (suc k)) ≡ suc k = ground arith in
      let before : suc k - 1 ≡ k = omega arith in
      let offset : offset_of (suc k) limit ≡ pos (k * limit) =
        ap (λ p. wrap64 (pos (p * limit))) before ∙ small_offset (k * limit) h in
      let shape : (list_jobs c order (pos (suc k)) (pos limit) filter db).0
          ≡ listed c order (offset_of (page_or_one (pos (suc k))) (limit_or_20 (pos limit)))
              (limit_or_20 (pos limit)) (matching filter db.rows) =
        ground (arith, calm) in
      shape
      ∙ ap
          (λ l.
            listed c order (offset_of (page_or_one (pos (suc k))) l) l (matching filter db.rows))
          limit_same
      ∙ ap (λ p. listed c order (offset_of p limit) limit (matching filter db.rows)) page_same
      ∙ ap (λ o. listed c order o limit (matching filter db.rows)) offset

  module _ (orders : ℕ → List Row → List Row) (sorted : List Row)
      (one_order : (k : ℕ) → orders k (matching filter db.rows) ≡ sorted) where
    first_pages-take :
        (k : ℕ)
        → k * limit < 2 ^ 63
        → first_pages c orders limit filter db k ≡ map (row_job c) (take (k * limit) sorted)
    unfolding first_pages
    first_pages-take zero h =
        let none_taken : 0 * limit ≡ 0 = omega arith in
        sym (ap (λ n. map (row_job c) (take n sorted)) none_taken)
    first_pages-take (suc k) h =
        let one_more : suc k * limit ≡ k * limit + limit = suc-mul k limit in
        let within : k * limit < 2 ^ 63 = omega arith in
        let page =
          ap jobs_of (list_jobs-calm (orders k) k within)
          ∙ ap (λ rows. map (row_job c) (take limit (drop (k * limit) rows))) (one_order k) in
        ap (λ js. js ++ jobs_of (list_jobs c (orders k) (pos (suc k)) (pos limit) filter db).0)
          (first_pages-take k within)
        ∙ ap (λ js. map (row_job c) (take (k * limit) sorted) ++ js) page
        ∙ sym (
            map-append (row_job c) (take (k * limit) sorted) (take limit (drop (k * limit) sorted)))
        ∙ ap (map (row_job c)) (sym (take-drop (k * limit) limit sorted))
        ∙ ap (λ n. map (row_job c) (take n sorted)) (sym one_more)

  -- On a table that does not change meanwhile and whose statements do not fail, the first k pages
  -- of one limit between 1 and 100 are together the jobs of the matching rows, each once and newest
  -- first: if the pages hold as many rows as match, (k * limit) is below 2^63, no two matching rows
  -- have the same time of creation, and each query orders the rows by that time, descending.
  pub list_jobs_pages :
      (orders : ℕ → List Row → List Row) (sorted : List Row)
      → TimesDiffer (matching filter db.rows)
      → IsOrdered (matching filter db.rows) sorted
      → ((k : ℕ) → IsOrdered (matching filter db.rows) (orders k (matching filter db.rows)))
      → (k : ℕ) → length (matching filter db.rows) ≤ k * limit
      → k * limit < 2 ^ 63
      → first_pages c orders limit filter db k ≡ map (row_job c) sorted
  list_jobs_pages orders sorted apart once each k enough h =
      first_pages-take orders sorted (λ n. ordered_once apart (each n) once) k h
      ∙ ap (map (row_job c))
          (take_all (k * limit) sorted (omega (arith, enough, IsOrdered-length once)))
