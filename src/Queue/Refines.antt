-- ===== src/Queue/Refines.antt =====
-- internal/queue/queue.go as a queue: first in, first out.
use web_gobbler.Prelude.{
  ℕ, String, Bool, true, false, Option, none, some, List, [], ◌∷◌, ◌++◌, ◌≡◌, refl, ap, ◌∙◌, ◌⊎◌,
  inl, inr, arith, length, length-append, List-cases, Bool-cases, Option-cases, if◌then◌else◌,
}
use web_gobbler.Queue.{JobPayload}
use web_gobbler.Queue.Redis.{
  Redis, PayloadCodec, IsFaithful, pop_last, Dequeued, timed_out, failed, dequeued_of, enqueue,
  dequeue, queue_depth,
}

-- The specification: a sequence of messages, the oldest first; `none` is one that cannot be read.
abbrev pub Messages : Type 0
Messages = List (Option JobPayload)

-- The calls of a client, and what it sees of each.
pub data Call : Type 0 where
  put : JobPayload → Call
  take : Call
  count : Call

pub data Seen : Type 0 where
  put_done : Bool → Seen
  took : Dequeued → Seen
  counted : Option ℕ → Seen

-- What a call does to a sequence, when its command is carried out.
abbrev take_first : Messages → Seen × Messages
take_first [] = (took timed_out, [])
take_first (m ∷ ms) = (took (dequeued_of m), ms)

abbrev pub spec : Call → Messages → Seen × Messages
spec (put p) ms = (put_done true, ms ++ some p ∷ [])
spec take ms = take_first ms
spec count ms = (counted (some (length ms)), ms)

-- A call whose command is refused changes nothing, and says so.
abbrev pub refused : Call → Seen
refused (put p) = put_done false
refused take = took failed
refused count = counted none

-- The state of the specification, with the script of the commands that are refused.
pub record View : Type 0 where
  pub messages : Messages
  pub faults : List Bool

abbrev pub split_fault : List Bool → Bool × List Bool
split_fault [] = (false, [])
split_fault (b ∷ bs) = (b, bs)

module _ (c : PayloadCodec) where
  abbrev pub contents : List String → Messages
  contents [] = []
  contents (text ∷ items) = contents items ++ c.unmarshal text ∷ []

  abbrev pub call : Call → Redis → Seen × Redis
  call (put p) r = let (done, r') = enqueue c p r in (put_done done, r')
  call take r = let (answer, r') = dequeue c r in (took answer, r')
  call count r = let (depth, r') = queue_depth r in (counted depth, r')

  -- The calls of one or more clients, in the order in which the server carries them out.
  unfoldable pub run : List Call → Redis → List Seen × Redis
  run [] r = ([], r)
  run (k ∷ ks) r = let (seen, r') = call k r in let (rest, end) = run ks r' in (seen ∷ rest, end)

  -- Where a call of Enqueue cannot write its message, no command is sent.
  abbrev pub is_sent : Call → Bool
  is_sent (put p) = elim (c.marshal p) [ none ↦ false | some s ↦ true ]
  is_sent take = true
  is_sent count = true

  abbrev view_step : Bool → Call → View → Seen × View
  view_step true k v = (refused k, v)
  view_step false k v = let (seen, ms) = spec k v.messages in (seen, record v { messages = ms })

  -- A call on the specification: the next refusal of the script is for the next command.
  abbrev pub step : Call → View → Seen × View
  step k v =
      if is_sent k
      then (let (fault, faults) = split_fault v.faults in
          view_step fault k (record v { faults = faults }))
      else (refused k, v)

  unfoldable pub run_spec : List Call → View → List Seen × View
  run_spec [] v = ([], v)
  run_spec (k ∷ ks) v =
      let (seen, v') = step k v in let (rest, end) = run_spec ks v' in (seen ∷ rest, end)

  -- How a server looks from outside.
  abbrev pub view : Redis → View
  view r = record { messages = contents r.items; faults = r.faults }

  length-contents : (items : List String) → length (contents items) ≡ length items
  length-contents [] = refl
  length-contents (text ∷ items) =
      omega (arith, length-contents items, length-append (contents items) (c.unmarshal text ∷ []))

  -- RPOP takes the oldest message.
  pub pop_last-contents :
      (items : List String)
      → ((pop_last items ≡ none) × (contents items ≡ []))
        ⊎ ((text : String) × (rest : List String) × (pop_last items ≡ some (text, rest))
            × (contents items ≡ c.unmarshal text ∷ contents rest))
  unfolding pop_last
  pop_last-contents [] = inl (refl, refl)
  pop_last-contents (x ∷ xs) = elim (pop_last-contents xs) [
    | inl (e, empty) ↦ inr (x, [], rw (e, pop_last) refl, ap (λ ms. ms ++ c.unmarshal x ∷ []) empty)
    | inr (text, rest, e, some_there) ↦
        inr (text, x ∷ rest, rw (e, pop_last) refl, ap (λ ms. ms ++ c.unmarshal x ∷ []) some_there)
  ]

  -- How a script of refusals begins.
  script-cases :
      (r : Redis)
      → (r.faults ≡ [])
        ⊎ ((bs : List Bool) × (r.faults ≡ true ∷ bs))
        ⊎ ((bs : List Bool) × (r.faults ≡ false ∷ bs))
  script-cases r = elim (List-cases r.faults) [
    | inl e ↦ inl e
    | inr (b, bs, e) ↦ elim (Bool-cases b) [
      | inl t ↦ inr (inl (bs, e ∙ ap (λ x. x ∷ bs) t))
      | inr f ↦ inr (inr (bs, e ∙ ap (λ x. x ∷ bs) f))
    ]
  ]

  call-step-take :
      (r : Redis)
      → ((call take r).0 ≡ (step take (view r)).0) × (view (call take r).1 ≡ (step take (view r)).1)
  unfolding dequeue
  call-step-take r = elim (pop_last-contents r.items) [
    | inl (e, empty) ↦ elim (script-cases r) [
      | inl f ↦ ground (arith, e, empty, f)
      | inr (inl (bs, f)) ↦ ground (arith, e, empty, f)
      | inr (inr (bs, f)) ↦ ground (arith, e, empty, f)
    ]
    | inr (text, rest, e, first) ↦ elim (script-cases r) [
      | inl f ↦ ground (arith, e, first, f)
      | inr (inl (bs, f)) ↦ ground (arith, e, first, f)
      | inr (inr (bs, f)) ↦ ground (arith, e, first, f)
    ]
  ]

  call-step-put :
      IsFaithful c
      → (p : JobPayload) (r : Redis)
      → ((call (put p) r).0 ≡ (step (put p) (view r)).0)
        × (view (call (put p) r).1 ≡ (step (put p) (view r)).1)
  unfolding enqueue
  call-step-put faithful p r = elim (Option-cases (c.marshal p)) [
    | inl e ↦ ground (arith, e)
    | inr (s, e) ↦ elim (script-cases r) [
      | inl f ↦ ground (arith, e, f, faithful.back p s e)
      | inr (inl (bs, f)) ↦ ground (arith, e, f)
      | inr (inr (bs, f)) ↦ ground (arith, e, f, faithful.back p s e)
    ]
  ]

  call-step-count :
      (r : Redis)
      → ((call count r).0 ≡ (step count (view r)).0)
        × (view (call count r).1 ≡ (step count (view r)).1)
  unfolding queue_depth
  call-step-count r = elim (script-cases r) [
    | inl f ↦ ground (arith, f, length-contents r.items)
    | inr (inl (bs, f)) ↦ ground (arith, f)
    | inr (inr (bs, f)) ↦ ground (arith, f, length-contents r.items)
  ]

  call-step :
      IsFaithful c
      → (k : Call) (r : Redis)
      → ((call k r).0 ≡ (step k (view r)).0) × (view (call k r).1 ≡ (step k (view r)).1)
  call-step faithful (put p) r = call-step-put faithful p r
  call-step faithful take r = call-step-take r
  call-step faithful count r = call-step-count r

  -- Enqueue, Dequeue and QueueDepth, called in any order by any clients, with any commands refused,
  -- answer as a queue does in which the first message put is the first one taken, and leave what it
  -- leaves.
  pub queue_refines :
      IsFaithful c
      → (ks : List Call) (r : Redis)
      → ((run ks r).0 ≡ (run_spec ks (view r)).0) × (view (run ks r).1 ≡ (run_spec ks (view r)).1)
  unfolding run run_spec
  queue_refines faithful [] r = (refl, refl)
  queue_refines faithful (k ∷ ks) r =
      let (answer, after) = call-step faithful k r in
      let (rest, end) = queue_refines faithful ks (call k r).1 in
      (
        ap (λ a. a ∷ (run ks (call k r).1).0) answer
            ∙ ap (λ l. (step k (view r)).0 ∷ l) (rest ∙ ap (λ v. (run_spec ks v).0) after),
        end ∙ ap (λ v. (run_spec ks v).1) after,
      )
