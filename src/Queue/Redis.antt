-- ===== src/Queue/Redis.antt =====
-- internal/queue/queue.go: Enqueue, Dequeue, QueueDepth and Ping, on the Redis list that they
-- share. As with the database, a script says which commands fail; a command that fails changes
-- nothing.
use web_gobbler.Prelude.{
  ℕ, String, Bool, true, false, not, Option, none, some, List, [], ◌∷◌, ◌≡◌, length, if◌then◌else◌,
}
use web_gobbler.Queue.{JobPayload}

-- The list under the key "scraper:jobs:queue", its head first, and the commands to come that fail.
pub record Redis : Type 0 where
  pub items : List String
  pub faults : List Bool

-- encoding/json on messages.
pub record PayloadCodec : Type 0 where
  pub marshal : JobPayload → Option String
  pub unmarshal : String → Option JobPayload

-- A message that can be written is read back.
pub record IsFaithful (c : PayloadCodec) : Type 0 where
  pub back : (p : JobPayload) (s : String) → c.marshal p ≡ some s → c.unmarshal s ≡ some p

abbrev fault_in : List Bool → Redis → Bool × Redis
fault_in [] r = (false, r)
fault_in (b ∷ bs) r = (b, record r { faults = bs })

-- Whether the next command fails, and the server behind it.
abbrev pub next_fault : Redis → Bool × Redis
next_fault r = fault_in r.faults r

-- The last element of a list, and those before it: what RPOP takes and leaves.
unfoldable pub pop_last : List String → Option (String × List String)
pop_last [] = none
pop_last (x ∷ xs) = elim (pop_last xs) [ none ↦ some (x, []) | some (y, rest) ↦ some (y, x ∷ rest) ]

-- (*JobPayload, error) of Dequeue: a nil payload without an error is `timed_out`.
pub data Dequeued : Type 0 where
  taken : JobPayload → Dequeued
  timed_out : Dequeued
  failed : Dequeued

abbrev pub dequeued_of : Option JobPayload → Dequeued
dequeued_of none = failed
dequeued_of (some p) = taken p

module _ (c : PayloadCodec) where
  -- Enqueue, with LPUSH
  unfoldable pub enqueue : JobPayload → Redis → Bool × Redis
  enqueue payload r = elim (c.marshal payload) [
    | none ↦ (false, r)
    | some text ↦
        let (fault, r') = next_fault r in
        if fault then (false, r') else (true, record r' { items = text ∷ r'.items })
  ]

  -- Dequeue, with BRPOP: a message that cannot be read is gone all the same.
  unfoldable pub dequeue : Redis → Dequeued × Redis
  dequeue r =
      let (fault, r') = next_fault r in
      if fault then (failed, r') else elim (pop_last r'.items) [
        | none ↦ (timed_out, r')
        | some (text, rest) ↦ (dequeued_of (c.unmarshal text), record r' { items = rest })
      ]

-- QueueDepth, with LLEN
unfoldable pub queue_depth : Redis → Option ℕ × Redis
queue_depth r =
    let (fault, r') = next_fault r in if fault then (none, r') else (some (length r'.items), r')

-- Ping
unfoldable pub ping : Redis → Bool × Redis
ping r = let (fault, r') = next_fault r in (not fault, r')
