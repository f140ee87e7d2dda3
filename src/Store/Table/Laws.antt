-- ===== src/Store/Table/Laws.antt =====
-- How an `UPDATE` (internal/store/store.go) changes what is counted and what is selected.
use web_gobbler.Prelude.{
  ℕ, suc, ◌≤◌, ◌<◌, Bool, true, false, ◌&&◌, none, some, List, [], ◌∷◌, ◌≡◌, ◌≢◌, refl, sym, ap,
  subst, ◌∙◌, inl, inr, arith, ◌==◌, ltb, All, Bool-cases, Option-cases, if◌then◌else◌,
}
use mathlib.Core.Option
use web_gobbler.Store.Types.{Uuid, JobStatus, is_status}
use web_gobbler.Store.Table.{Row, has_id, is_row, update_where, select_id, IsKeyed}

-- The number of rows that pass a test.
unfoldable pub count : (Row → Bool) → List Row → ℕ
count p [] = 0
count p (r ∷ rs) = let n = count p rs in if p r then suc n else n

module _ (test : Row → Bool) (set : Row → Row) where
  pub affected-eq-count : (rows : List Row) → (update_where test set rows).0 ≡ count test rows
  unfolding update_where count
  affected-eq-count [] = refl
  affected-eq-count (r ∷ rs) = ground (arith, affected-eq-count rs)

  -- A count whose test an assignment does not turn on does not grow.
  pub count-update_le :
      (p : Row → Bool)
      → ((r : Row) → p (set r) ≡ true → p r ≡ true)
      → (rows : List Row) → count p (update_where test set rows).1 ≤ count p rows
  unfolding update_where count
  count-update_le p h [] = omega arith
  count-update_le p h (r ∷ rs) = ground (arith, count-update_le p h rs, h r)

  pub count-update_eq :
      (p : Row → Bool)
      → ((r : Row) → test r ≡ true → p (set r) ≡ p r)
      → (rows : List Row) → count p (update_where test set rows).1 ≡ count p rows
  unfolding update_where count
  count-update_eq p h [] = refl
  count-update_eq p h (r ∷ rs) = ground (arith, count-update_eq p h rs, h r)

  -- An update turns off the test by which it chose its rows.
  pub count-update_zero :
      (p : Row → Bool)
      → ((r : Row) → test r ≡ true → p (set r) ≡ false)
      → ((r : Row) → test r ≡ false → p r ≡ false)
      → (rows : List Row) → count p (update_where test set rows).1 ≡ 0
  unfolding update_where count
  count-update_zero p h k [] = refl
  count-update_zero p h k (r ∷ rs) = ground (arith, count-update_zero p h k rs, h r, k r)

  module _ (same_id : (r : Row) → (set r).id ≡ r.id) where
    pub select_id-update :
        (id : Uuid) (rows : List Row)
        → select_id id (update_where test set rows).1
          ≡ Option.map (λ r. if test r then set r else r) (select_id id rows)
    unfolding update_where select_id
    select_id-update id [] = refl
    select_id-update id (r ∷ rs) = ground (arith, select_id-update id rs, same_id r)

    ids-update :
        (id : Uuid) (rows : List Row)
        → All (λ s. id ≢ s.id) rows
        → All (λ s. id ≢ s.id) (update_where test set rows).1
    unfolding update_where
    ids-update id [] h = tt
    ids-update id (r ∷ rs) (h, hs) = elim (Bool-cases (test r)) [
      | inl e ↦ rw e (λ q. h (q ∙ same_id r), ids-update id rs hs)
      | inr e ↦ rw e (h, ids-update id rs hs)
    ]

    pub IsKeyed-update : (rows : List Row) → IsKeyed rows → IsKeyed (update_where test set rows).1
    unfolding update_where
    IsKeyed-update [] h = tt
    IsKeyed-update (r ∷ rs) (h, hs) = elim (Bool-cases (test r)) [
      | inl e ↦ rw e (
        subst (λ i. All (λ (s : Row). i ≢ s.id) (update_where test set rs).1) (sym (same_id r))
            (ids-update r.id rs h),
        IsKeyed-update rs hs,
      )
      | inr e ↦ rw e (ids-update r.id rs h, IsKeyed-update rs hs)
    ]

pub count_mono :
    (p q : Row → Bool)
    → ((r : Row) → p r ≡ true → q r ≡ true)
    → (rows : List Row) → count p rows ≤ count q rows
unfolding count
count_mono p q h [] = omega arith
count_mono p q h (r ∷ rs) = ground (arith, count_mono p q h rs, h r)

pub count-select_id :
    (id : Uuid) (rows : List Row) → select_id id rows ≡ none → count (has_id id) rows ≡ 0
unfolding count select_id
count-select_id id [] h = refl
count-select_id id (r ∷ rs) h = ground (arith, count-select_id id rs)

pub count-select_id-some :
    (id : Uuid) (rows : List Row) {r : Row}
    → select_id id rows ≡ some r
    → 0 < count (has_id id) rows
unfolding count select_id
count-select_id-some id [] h = cc
count-select_id-some id (s ∷ rs) {r} h = ground (arith, count-select_id-some id rs {r = r})

count-absent :
    (id i : Uuid) (status : JobStatus) (rows : List Row)
    → i ≡ id
    → All (λ s. i ≢ s.id) rows
    → count (is_row id status) rows ≡ 0
unfolding count
count-absent id i status [] e h = refl
count-absent id i status (s ∷ rs) e (h, hs) =
    let other : s.id ≢ id = λ q. h (e ∙ sym q) in ground (arith, count-absent id i status rs e hs)

-- Where ids are unique, a row of the status is there exactly when the selected row has it.
pub count-is_row :
    (id : Uuid) (status : JobStatus) (rows : List Row) {r : Row}
    → IsKeyed rows
    → select_id id rows ≡ some r
    → (ltb 0 (count (is_row id status) rows)) ≡ is_status r.status status
unfolding count select_id
count-is_row id status [] k h = cc
count-is_row id status (s ∷ rs) {r} (new, k) h = elim (Bool-cases (s.id == id)) [
  | inl e ↦
      let same : s ≡ r = ground arith in
      let at_id : s.id ≡ id = ground arith in
      ground
        (arith, count-absent id s.id status rs at_id new, ap (λ x. is_status x.status status) same)
  | inr e ↦ ground (arith, count-is_row id status rs {r = r} k)
]

pub select_id-id : (id : Uuid) (rows : List Row) {r : Row} → select_id id rows ≡ some r → r.id ≡ id
unfolding select_id
select_id-id id [] h = cc
select_id-id id (s ∷ rs) {r} h = ground (arith, select_id-id id rs {r = r}, ap (λ (x : Row). x.id))

-- A change of the rows of one id that pass a test, seen through the primary key.
pub select_id-update_id :
    (id : Uuid) (p : Row → Bool) (set : Row → Row)
    → ((r : Row) → (set r).id ≡ r.id)
    → (j : Uuid) (rows : List Row)
    → select_id j (update_where (λ r. r.id == id && p r) set rows).1 ≡ (
        if j == id
        then Option.map (λ r. if p r then set r else r) (select_id j rows)
        else select_id j rows)
select_id-update_id id p set same_id j rows =
    select_id-update (λ r. r.id == id && p r) set same_id j rows
    ∙ elim (Option-cases (select_id j rows)) [
      | inl e ↦ rw e (ground arith)
      | inr (r, e) ↦ let at_id = select_id-id j rows e in rw e (ground arith)
    ]

pub select_id-update_has :
    (id : Uuid) (set : Row → Row)
    → ((r : Row) → (set r).id ≡ r.id)
    → (j : Uuid) (rows : List Row)
    → select_id j (update_where (has_id id) set rows).1
      ≡ (if j == id then Option.map set (select_id j rows) else select_id j rows)
select_id-update_has id set same_id j rows =
    select_id-update (has_id id) set same_id j rows ∙ elim (Option-cases (select_id j rows)) [
      | inl e ↦ rw e (ground arith)
      | inr (r, e) ↦ let at_id = select_id-id j rows e in rw e (ground arith)
    ]
