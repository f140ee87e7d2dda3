-- ===== src/Worker/Ending.antt =====
-- That the worker process ends after a signal.
use web_gobbler.Prelude.{
  ℕ, ◌+◌, ◌*◌, ◌≤◌, ◌<◌, ℤ, Bool, true, List, [], ◌∷◌, ◌++◌, length, ◌≡◌, ◌≢◌, refl, sym, ap, subst,
  ◌∙◌, ◌⊎◌, inl, inr, arith,
}
use web_gobbler.Worker.Lifecycle.{
  Phase, at_poll, in_dequeue, in_pause, in_job, stopped, Main, at_start, has_db, migrated, spawning,
  serving, stopping, joined, queue_closed, returned, exited, Process, at_boot, Turn, see_done, poll,
  dequeue_fails, dequeue_empty, dequeue_job, pause_over, pause_cut, job_over, Step, open_db, no_db,
  migrate, no_migration, open_queue, no_queue, spawn, serve, signal, join, close_queue, close_db,
  work, Run, here, next, steps,
}
use web_gobbler.Worker.Shutdown.{active, Fits, Inv, Run-Inv}

-- How many moves a worker has left, once the context has ended.
abbrev moves_left : Phase → ℕ
moves_left stopped = 0
moves_left at_poll = 1
moves_left in_pause = 2
moves_left in_job = 2
moves_left in_dequeue = 3

abbrev all_left : List Phase → ℕ
all_left [] = 0
all_left (ph ∷ phs) = moves_left ph + all_left phs

all_left-append : (xs ys : List Phase) → all_left (xs ++ ys) ≡ all_left xs + all_left ys
all_left-append [] ys = omega arith
all_left-append (x ∷ xs) ys = omega (arith, all_left-append xs ys)

moves_left-bound : (ph : Phase) → moves_left ph ≤ 3
moves_left-bound stopped = omega arith
moves_left-bound at_poll = omega arith
moves_left-bound in_pause = omega arith
moves_left-bound in_job = omega arith
moves_left-bound in_dequeue = omega arith

all_left-bound : (phs : List Phase) → all_left phs ≤ 3 * length phs
all_left-bound [] = omega arith
all_left-bound (ph ∷ phs) = omega (arith, moves_left-bound ph, all_left-bound phs)

Turn-moves_left :
    {b : Bool} {ph ph' : Phase} → b ≡ true → Turn b ph ph' → moves_left ph' < moves_left ph
Turn-moves_left on (see_done e) = omega arith
Turn-moves_left on (poll e) = cc (on, e)
Turn-moves_left on dequeue_fails = omega arith
Turn-moves_left on dequeue_empty = omega arith
Turn-moves_left on dequeue_job = omega arith
Turn-moves_left on pause_over = omega arith
Turn-moves_left on (pause_cut e) = omega arith
Turn-moves_left on job_over = omega arith

-- What main has left, from the signal on.
abbrev main_left : Main → ℕ
main_left stopping = 3
main_left joined = 2
main_left queue_closed = 1
main_left _ = 0

abbrev Closing : Main → Type 0
Closing stopping = Unit
Closing joined = Unit
Closing queue_closed = Unit
Closing returned = Unit
Closing _ = ⊥

abbrev left : Process → ℕ
left p = main_left p.main + all_left p.workers

module _ (concurrency : ℤ) where
  -- Each step after the signal is one fewer, and another can be made until main has returned.
  Step-left :
      {p t : Process}
      → Step concurrency p t
      → Closing p.main
      → p.cancelled ≡ true
      → (left t < left p) × Closing t.main × (t.cancelled ≡ true)
  Step-left {p} (open_db e) c on = elim (subst Closing e c) [ ]
  Step-left {p} (no_db e) c on = elim (subst Closing e c) [ ]
  Step-left {p} (migrate e) c on = elim (subst Closing e c) [ ]
  Step-left {p} (no_migration e) c on = elim (subst Closing e c) [ ]
  Step-left {p} (open_queue e) c on = elim (subst Closing e c) [ ]
  Step-left {p} (no_queue e) c on = elim (subst Closing e c) [ ]
  Step-left {p} (spawn k e) c on = elim (subst Closing e c) [ ]
  Step-left {p} (serve e) c on = elim (subst Closing e c) [ ]
  Step-left {p} (signal e) c on = elim (subst Closing e c) [ ]
  Step-left {p} (join e none_left) c on = (omega (arith, ap main_left e), tt, on)
  Step-left {p} (close_queue e) c on = (omega (arith, ap main_left e), tt, on)
  Step-left {p} (close_db e) c on = (omega (arith, ap main_left e), tt, on)
  Step-left {p} (work before after {ph} {ph'} e turn) c on =
      let was = ap all_left e ∙ all_left-append before (ph ∷ after) in
      let now = all_left-append before (ph' ∷ after) in
      (omega (arith, was, now, Turn-moves_left on turn), c, on)

  Run-left :
      {p t : Process}
      → (r : Run concurrency p t) → Closing p.main
      → p.cancelled ≡ true
      → (steps concurrency r + left t ≤ left p) × Closing t.main × (t.cancelled ≡ true)
  Run-left here c on = (omega arith, c, on)
  Run-left (next r st) c on =
      let (fewer, c', on') = Run-left r c on in
      let (less, c'', on'') = Step-left st c' on' in (omega (arith, fewer, less), c'', on'')

  -- A worker that has not returned can move.
  abbrev pub CanMove : Process → Type 0
  CanMove p = (t : Process) × Step concurrency p t

  next_move : (ph : Phase) {b : Bool} → b ≡ true → ph ≢ stopped → (ph' : Phase) × Turn b ph ph'
  next_move at_poll on h = (stopped, see_done on)
  next_move in_dequeue on h = (at_poll, dequeue_empty)
  next_move in_pause on h = (at_poll, pause_over)
  next_move in_job on h = (at_poll, job_over)
  next_move stopped on h = absurd (h refl)

  find_active :
      (phs : List Phase)
      → (active phs ≡ 0)
        ⊎ ((before after : List Phase) × (ph : Phase) × (phs ≡ before ++ ph ∷ after)
            × (ph ≢ stopped))
  find_active [] = inl refl
  find_active (stopped ∷ phs) = elim (find_active phs) [
    | inl none_left ↦ inl (omega (arith, none_left))
    | inr (before, after, ph, e, on) ↦
        inr (stopped ∷ before, after, ph, ap (λ l. stopped ∷ l) e, on)
  ]
  find_active (at_poll ∷ phs) = inr ([], phs, at_poll, refl, λ h. cc h)
  find_active (in_dequeue ∷ phs) = inr ([], phs, in_dequeue, refl, λ h. cc h)
  find_active (in_pause ∷ phs) = inr ([], phs, in_pause, refl, λ h. cc h)
  find_active (in_job ∷ phs) = inr ([], phs, in_job, refl, λ h. cc h)

  stopping-CanMove : (p : Process) → Inv p → p.main ≡ stopping → p.cancelled ≡ true → CanMove p
  stopping-CanMove p v e on = elim (find_active p.workers) [
    | inl none_left ↦ (_, join e (v.counted ∙ none_left))
    | inr (before, after, ph, there, live) ↦
        let (ph', turn) = next_move ph on live in (_, work before after there turn)
  ]

  Closing-CanMove :
      (m : Main) (p : Process)
      → p.main ≡ m
      → Inv p
      → Closing m
      → p.cancelled ≡ true
      → (p.main ≡ returned) ⊎ CanMove p
  Closing-CanMove stopping p e v c on = inr (stopping-CanMove p v e on)
  Closing-CanMove joined p e v c on = inr (_, close_queue e)
  Closing-CanMove queue_closed p e v c on = inr (_, close_db e)
  Closing-CanMove returned p e v c on = inl e
  Closing-CanMove at_start p e v c on = elim c [ ]
  Closing-CanMove has_db p e v c on = elim c [ ]
  Closing-CanMove migrated p e v c on = elim c [ ]
  Closing-CanMove serving p e v c on = elim c [ ]
  Closing-CanMove exited p e v c on = elim c [ ]
  Closing-CanMove (spawning k) p e v c on = elim c [ ]

  concat-Run : {p t u : Process} → Run concurrency p t → Run concurrency t u → Run concurrency p u
  concat-Run r here = r
  concat-Run r (next r' st) = next (concat-Run r r') st

  -- After a signal the process ends: whatever the queue and the jobs give, as long as each call
  -- returns, main and the n workers make 3 n + 3 moves at most, and until main has returned, its
  -- calls to close the queue and the database behind it, one of them can make another.
  pub shutdown_ends :
      {p t : Process}
      → Run concurrency at_boot p
      → p.main ≡ stopping
      → (r : Run concurrency p t)
      → (steps concurrency r ≤ 3 * length p.workers + 3) × ((t.main ≡ returned) ⊎ CanMove t)
  shutdown_ends {p} {t} boot e r =
      let v = Run-Inv concurrency boot in
      let on = (subst (λ m. Fits m p) e v.fits).2 in
      let (few, closing, on') = Run-left r (subst Closing (sym e) tt) on in
      (
        omega (arith, few, all_left-bound p.workers, ap main_left e),
        Closing-CanMove t.main t refl (Run-Inv concurrency (concat-Run boot r)) closing on',
      )
