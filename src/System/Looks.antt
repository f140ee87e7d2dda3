-- ===== src/System/Looks.antt =====
-- The calls of the store and the queue that change neither the table nor the queue's list
-- (internal/store/store.go, internal/queue/queue.go): GetJob, ListJobs, the pings and QueueDepth.
use web_gobbler.Prelude.{ℤ, String, List, [], ◌≡◌, refl, inl, inr, arith, List-cases}
use web_gobbler.Queue.Redis.{Redis, queue_depth, ping}
use web_gobbler.Store.Types.{Uuid, Codec}
use web_gobbler.Store.Table.{Row, Db}
use web_gobbler.Store.Jobs.{get_job, ping_store}
use web_gobbler.Store.Listing.{list_jobs}

-- The rows are kept, and a database that refuses nothing goes on so.
pub record Looked (db db' : Db) : Type 0 where
  pub rows : db'.rows ≡ db.rows
  pub calm : db.faults ≡ [] → db'.faults ≡ []

pub record LookedAt (r r' : Redis) : Type 0 where
  pub items : r'.items ≡ r.items
  pub calm : r.faults ≡ [] → r'.faults ≡ []

module _ (c : Codec) (db : Db) where
  pub get_job-Looked : (id : Uuid) → Looked db (get_job c id db).1
  unfolding get_job
  get_job-Looked id = record {
    rows = elim (List-cases db.faults) [
      | inl e ↦ ground (arith, e)
      | inr (b, bs, e) ↦ ground (arith, e)
    ];
    calm = λ calm. ground (arith, calm);
  }

  pub list_jobs-Looked :
      (order : List Row → List Row) (page limit : ℤ) (filter : String)
      → Looked db (list_jobs c order page limit filter db).1
  unfolding list_jobs
  list_jobs-Looked order page limit filter = record {
    rows = elim (List-cases db.faults) [
      | inl e ↦ rw e refl
      | inr (b, bs, e) ↦ elim (List-cases bs) [
        | inl e' ↦ ground (arith, e, e')
        | inr (b', bs', e') ↦ ground (arith, e, e')
      ]
    ];
    calm = λ calm. rw calm refl;
  }

pub ping_store-Looked : (db : Db) → Looked db (ping_store db).1
unfolding ping_store
ping_store-Looked db = record {
  rows = elim (List-cases db.faults) [
    | inl e ↦ ground (arith, e)
    | inr (b, bs, e) ↦ ground (arith, e)
  ];
  calm = λ calm. ground (arith, calm);
}

pub queue_depth-LookedAt : (r : Redis) → LookedAt r (queue_depth r).1
unfolding queue_depth
queue_depth-LookedAt r = record {
  items = elim (List-cases r.faults) [
    | inl e ↦ ground (arith, e)
    | inr (b, bs, e) ↦ ground (arith, e)
  ];
  calm = λ calm. ground (arith, calm);
}

pub ping-LookedAt : (r : Redis) → LookedAt r (ping r).1
unfolding ping
ping-LookedAt r = record {
  items = elim (List-cases r.faults) [
    | inl e ↦ ground (arith, e)
    | inr (b, bs, e) ↦ ground (arith, e)
  ];
  calm = λ calm. ground (arith, calm);
}
