-- ===== src/Store/Listing.antt =====
-- internal/store/store.go, ListJobs. The order that ORDER BY gives to rows of one creation time is
-- PostgreSQL's, so the ordering is an argument.
use web_gobbler.Prelude.{
  ℕ, ◌-◌, ◌*◌, ℤ, pos, negsuc, int_ltb, to_ℕ, wrap64, String, str_eq, ◌||◌, List, [], ◌∷◌, map,
  take, drop, length, if◌then◌else◌,
}
use web_gobbler.Store.Types.{status_text, Job, db_failed, Reply, ok, err, Codec}
use web_gobbler.Store.Table.{Row, Db, next_fault}
use web_gobbler.Store.Jobs.{row_job}

-- `if page < 1 { page = 1 }`
abbrev pub page_or_one : ℤ → ℕ
page_or_one page = if int_ltb page (pos 1) then 1 else to_ℕ page

-- `if limit < 1 || limit > 100 { limit = 20 }`
abbrev pub limit_or_20 : ℤ → ℕ
limit_or_20 limit = if int_ltb limit (pos 1) || int_ltb (pos 100) limit then 20 else to_ℕ limit

-- `WHERE status = $1`, where there is a filter.
unfoldable pub with_status : String → List Row → List Row
with_status filter [] = []
with_status filter (r ∷ rs) =
    let rest = with_status filter rs in
    if str_eq (status_text r.status) filter then r ∷ rest else rest

abbrev pub matching : String → List Row → List Row
matching filter rows = if str_eq filter "" then rows else with_status filter rows

-- (page - 1) * limit, on 64 bits
abbrev pub offset_of : ℕ → ℕ → ℤ
offset_of page limit = wrap64 (pos ((page - 1) * limit))

module _ (c : Codec) (order : List Row → List Row) where
  -- `LIMIT … OFFSET …`: PostgreSQL refuses a negative offset.
  abbrev pub listed : ℤ → ℕ → List Row → Reply (List Job × ℕ)
  listed (negsuc o) limit rows = err db_failed
  listed (pos o) limit rows = ok (map (row_job c) (take limit (drop o (order rows))), length rows)

  -- ListJobs: the jobs of the page, and the count of all that match.
  unfoldable pub list_jobs : ℤ → ℤ → String → Db → Reply (List Job × ℕ) × Db
  list_jobs page limit filter db =
      let p = page_or_one page in
      let l = limit_or_20 limit in
      let (fault, db') = next_fault db in
      if fault
      then (err db_failed, db')
      else let (fault', db'') = next_fault db' in
        if fault'
        then (err db_failed, db'')
        else (listed (offset_of p l) l (matching filter db''.rows), db'')
