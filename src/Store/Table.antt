-- ===== src/Store/Table.antt =====
-- The jobs table (migrations/000001_create_jobs_table.up.sql) and the few forms of SQL that
-- internal/store/store.go uses on it. Any statement may fail, and then changes nothing: `faults`
-- says, one entry for each statement to come, which do.
pub mod Laws
use web_gobbler.Prelude.{
  ℕ, zero, suc, String, Bool, true, false, ◌&&◌, Option, none, some, List, [], ◌∷◌, ◌≡◌, ◌==◌,
  if◌then◌else◌, All, length, ◌≢◌,
}
use web_gobbler.Store.Types.{Uuid, Time, JobStatus, is_status}

-- A row, its columns in the order of the schema.
pub record Row : Type 0 where
  pub id : Uuid
  pub url : String
  pub extract : List String
  pub options : Option String
  pub status : JobStatus
  pub result : Option String
  pub error_msg : Option String
  pub http_status : Option ℕ
  pub retries_used : ℕ
  pub duration_ms : Option ℕ
  pub created_at : Time
  pub updated_at : Time
  pub completed_at : Option Time

pub record Db : Type 0 where
  pub rows : List Row
  pub faults : List Bool

-- Whether the next statement fails, and the database behind it.
abbrev fault_in : List Bool → Db → Bool × Db
fault_in [] db = (false, db)
fault_in (b ∷ bs) db = (b, record db { faults = bs })

abbrev pub next_fault : Db → Bool × Db
next_fault db = fault_in db.faults db

abbrev pub has_id : Uuid → Row → Bool
has_id id r = r.id == id

-- `WHERE id = … AND status = …`
abbrev pub is_row : Uuid → JobStatus → Row → Bool
is_row id status r = r.id == id && is_status r.status status

-- `UPDATE jobs SET … WHERE …`: the number of rows affected, and the rows.
unfoldable pub update_where : (Row → Bool) → (Row → Row) → List Row → ℕ × List Row
update_where test set [] = (0, [])
update_where test set (r ∷ rs) =
    let (n, rest) = update_where test set rs in
    if test r then (suc n, set r ∷ rest) else (n, r ∷ rest)

-- `SELECT … WHERE id = …`, at most one row.
unfoldable pub select_id : Uuid → List Row → Option Row
select_id id [] = none
select_id id (r ∷ rs) = if has_id id r then some r else select_id id rs

-- The primary key: no two rows have one id.
abbrev pub IsKeyed : List Row → Type 0
IsKeyed [] = Unit
IsKeyed (r ∷ rs) = All (λ s. r.id ≢ s.id) rs × IsKeyed rs
