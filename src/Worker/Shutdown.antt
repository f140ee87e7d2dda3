-- ===== src/Worker/Shutdown.antt =====
-- The end of the worker process: who uses the store and the queue, and that it comes.
use mathlib.Core.List.Memᴰ
use web_gobbler.Prelude.{
  ℕ, ◌+◌, ◌≤◌, ℤ, Bool, true, List, [], ◌∷◌, ◌++◌, Memᴰ, ◌≡◌, ◌≢◌, refl, sym, ap, subst, ◌∙◌, inl,
  inr, arith,
}
use web_gobbler.Worker.Lifecycle.{
  Phase, at_poll, in_dequeue, in_pause, in_job, stopped, Main, at_start, has_db, migrated, spawning,
  serving, stopping, joined, queue_closed, returned, exited, Process, at_boot, Turn, see_done, poll,
  dequeue_fails, dequeue_empty, dequeue_job, pause_over, pause_cut, job_over, done_after, Step,
  open_db, no_db, migrate, no_migration, open_queue, no_queue, spawn, serve, signal, join,
  close_queue, close_db, work, Run, here, next,
}

abbrev live : Phase → ℕ
live stopped = 0
live _ = 1

-- The workers that have not returned.
abbrev pub active : List Phase → ℕ
active [] = 0
active (ph ∷ phs) = live ph + active phs

active-append : (xs ys : List Phase) → active (xs ++ ys) ≡ active xs + active ys
active-append [] ys = omega arith
active-append (x ∷ xs) ys = omega (arith, active-append xs ys)

active-mem : (phs : List Phase) {ph : Phase} → Memᴰ ph phs → ph ≢ stopped → 1 ≤ active phs
active-mem [] m on = absurd (Memᴰ.not-nil m)
active-mem (stopped ∷ phs) m on = elim (Memᴰ.cases_cons m) [
  | inl e ↦ absurd (on e)
  | inr later ↦ omega (arith, active-mem phs later on)
]
active-mem (at_poll ∷ phs) m on = omega arith
active-mem (in_dequeue ∷ phs) m on = omega arith
active-mem (in_pause ∷ phs) m on = omega arith
active-mem (in_job ∷ phs) m on = omega arith

Turn-live :
    {b : Bool} {ph ph' : Phase}
    → Turn b ph ph'
    → (live ph ≡ 1) × ((wg : ℕ) → 1 ≤ wg → done_after ph' wg + 1 ≡ wg + live ph')
Turn-live (see_done e) = (refl, λ wg h. omega arith)
Turn-live (poll e) = (refl, λ wg h. omega arith)
Turn-live dequeue_fails = (refl, λ wg h. omega arith)
Turn-live dequeue_empty = (refl, λ wg h. omega arith)
Turn-live dequeue_job = (refl, λ wg h. omega arith)
Turn-live pause_over = (refl, λ wg h. omega arith)
Turn-live (pause_cut e) = (refl, λ wg h. omega arith)
Turn-live job_over = (refl, λ wg h. omega arith)

-- What is open, or that all workers have returned, by where main stands.
abbrev pub Fits : Main → Process → Type 0
Fits (spawning k) p = (p.db_open ≡ true) × (p.queue_open ≡ true)
Fits serving p = (p.db_open ≡ true) × (p.queue_open ≡ true)
Fits stopping p = (p.db_open ≡ true) × (p.queue_open ≡ true) × (p.cancelled ≡ true)
Fits at_start p = active p.workers ≡ 0
Fits has_db p = (active p.workers ≡ 0) × (p.db_open ≡ true)
Fits migrated p = (active p.workers ≡ 0) × (p.db_open ≡ true)
Fits joined p = active p.workers ≡ 0
Fits queue_closed p = active p.workers ≡ 0
Fits returned p = active p.workers ≡ 0
Fits exited p = active p.workers ≡ 0

pub record Inv (p : Process) : Type 0 where
  pub counted : p.wg ≡ active p.workers
  pub fits : Fits p.main p

-- A move of one worker leaves what main has opened.
Fits-work :
    (m : Main) (p : Process) (wg : ℕ) (ws : List Phase)
    → 1 ≤ active p.workers
    → Fits m p
    → Fits m (record p { wg = wg; workers = ws })
Fits-work (spawning k) p wg ws some_live h = h
Fits-work serving p wg ws some_live h = h
Fits-work stopping p wg ws some_live h = h
Fits-work at_start p wg ws some_live h = absurd (omega (arith, some_live, h))
Fits-work joined p wg ws some_live h = absurd (omega (arith, some_live, h))
Fits-work queue_closed p wg ws some_live h = absurd (omega (arith, some_live, h))
Fits-work returned p wg ws some_live h = absurd (omega (arith, some_live, h))
Fits-work exited p wg ws some_live h = absurd (omega (arith, some_live, h))
Fits-work has_db p wg ws some_live h = absurd (omega (arith, some_live, h.0))
Fits-work migrated p wg ws some_live h = absurd (omega (arith, some_live, h.0))

-- One worker among the others.
active-split :
    (before after : List Phase) (ph : Phase) (ws : List Phase)
    → ws ≡ before ++ ph ∷ after
    → active ws ≡ active before + (live ph + active after)
active-split before after ph ws e = ap active e ∙ active-append before (ph ∷ after)

module _ (concurrency : ℤ) where
  pub Step-Inv : {p t : Process} → Step concurrency p t → Inv p → Inv t
  Step-Inv {p} (open_db e) v = record {
    counted = v.counted;
    fits = (subst (λ m. Fits m p) e v.fits, refl);
  }
  Step-Inv {p} (no_db e) v = record { counted = v.counted; fits = subst (λ m. Fits m p) e v.fits }
  Step-Inv {p} (migrate e) v = record { counted = v.counted; fits = subst (λ m. Fits m p) e v.fits }
  Step-Inv {p} (no_migration e) v = record {
    counted = v.counted;
    fits = (subst (λ m. Fits m p) e v.fits).0;
  }
  Step-Inv {p} (open_queue e) v = record {
    counted = v.counted;
    fits = ((subst (λ m. Fits m p) e v.fits).1, refl);
  }
  Step-Inv {p} (no_queue e) v = record {
    counted = v.counted;
    fits = (subst (λ m. Fits m p) e v.fits).0;
  }
  Step-Inv {p} (spawn k e) v = record {
    counted = omega (arith, v.counted, active-append p.workers (at_poll ∷ []));
    fits = subst (λ m. Fits m p) e v.fits;
  }
  Step-Inv {p} (serve e) v = record { counted = v.counted; fits = subst (λ m. Fits m p) e v.fits }
  Step-Inv {p} (signal e) v =
      let (d, q) = subst (λ m. Fits m p) e v.fits in
      record { counted = v.counted; fits = (d, q, refl) }
  Step-Inv {p} (join e none_left) v = record {
    counted = v.counted;
    fits = sym v.counted ∙ none_left;
  }
  Step-Inv {p} (close_queue e) v = record {
    counted = v.counted;
    fits = subst (λ m. Fits m p) e v.fits;
  }
  Step-Inv {p} (close_db e) v = record {
    counted = v.counted;
    fits = subst (λ m. Fits m p) e v.fits;
  }
  Step-Inv {p} (work before after {ph} {ph'} e turn) v =
      let (was_live, moves) = Turn-live turn in
      let all = active-split before after ph p.workers e in
      let then = active-append before (ph' ∷ after) in
      let some_live : 1 ≤ active p.workers = omega (arith, was_live, all) in
      let counted = moves p.wg (omega (arith, some_live, v.counted)) in
      record {
        counted = omega (arith, counted, v.counted, all, then, was_live);
        fits = Fits-work p.main p (done_after ph' p.wg) (before ++ ph' ∷ after) some_live v.fits;
      }

  pub Run-Inv : {p : Process} → Run concurrency at_boot p → Inv p
  Run-Inv here = record { counted = refl; fits = refl }
  Run-Inv (next r st) = Step-Inv st (Run-Inv r)

  open_while :
      (m : Main) (p : Process)
      → Fits m p
      → 1 ≤ active p.workers
      → (p.db_open ≡ true) × (p.queue_open ≡ true)
  open_while (spawning k) p h some_live = h
  open_while serving p h some_live = h
  open_while stopping p h some_live = (h.0, h.1)
  open_while at_start p h some_live = absurd (omega (arith, some_live, h))
  open_while joined p h some_live = absurd (omega (arith, some_live, h))
  open_while queue_closed p h some_live = absurd (omega (arith, some_live, h))
  open_while returned p h some_live = absurd (omega (arith, some_live, h))
  open_while exited p h some_live = absurd (omega (arith, some_live, h))
  open_while has_db p h some_live = absurd (omega (arith, some_live, h.0))
  open_while migrated p h some_live = absurd (omega (arith, some_live, h.0))

  -- From the start of the process to its end, in any order of what main and the workers do and
  -- whatever the opening of the store and the queue, the queue and the jobs give: as long as a
  -- worker has not returned from work, the database and the queue that it uses are open.
  pub workers_find_open :
      {p : Process}
      → Run concurrency at_boot p
      → {ph : Phase} → Memᴰ ph p.workers
      → ph ≢ stopped
      → (p.db_open ≡ true) × (p.queue_open ≡ true)
  workers_find_open {p} r m on = open_while p.main p (Run-Inv r).fits (active-mem p.workers m on)
