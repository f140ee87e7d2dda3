-- ===== src/System/Progress.antt =====
-- Sequences of steps, and what Dequeue takes from a queue that refuses nothing.
use web_gobbler.Prelude.{ℕ, String, Option, [], ◌∷◌, ◌≡◌, refl, inl, inr, arith}
use web_gobbler.Queue.{JobPayload}
use web_gobbler.Queue.Redis.{Redis, PayloadCodec, dequeued_of, dequeue}
use web_gobbler.Queue.Refines.{Messages, contents, pop_last-contents}
use web_gobbler.Store.Types.{Uuid, Codec}
use web_gobbler.System.{Doing, System, set_worker, Step}

pub set_worker_same : (i : ℕ) (d : Doing) (w : ℕ → Doing) → set_worker i d w i ≡ d
set_worker_same i d w = ground arith

module _ (c : Codec) (q : PayloadCodec) (parse : String → Option Uuid) where
  -- Some steps.
  pub data Later : System → System → Type 0 where
    stay : {s : System} → Later s s
    go : {s t u : System} → Step c q parse s t → Later t u → Later s u

  pub dequeue-head :
      (r : Redis) {m : Option JobPayload} {rest : Messages}
      → r.faults ≡ []
      → contents q r.items ≡ m ∷ rest
      → (r' : Redis) × (dequeue q r ≡ (dequeued_of m, r'))
        × (contents q r'.items ≡ rest)
        × (r'.faults ≡ [])
  unfolding dequeue
  dequeue-head r {m} {rest} still e = elim (pop_last-contents q r.items) [
    | inl (h, empty) ↦ cc (e, empty)
    | inr (text, left, h, first) ↦ (
      record { items = left; faults = [] },
      ground (arith, h, still, first, e),
      ground (arith, first, e),
      refl,
    )
  ]
