-- ===== src/Api/Shown.antt =====
-- What a client is shown of a job (internal/api/handlers.go, jobToResponse).
use web_gobbler.Prelude.{none, ◌≡◌, ◌⊎◌, inl, inr, refl, arith}
use web_gobbler.Store.Types.{JobStatus, queued, processing, completed, failed, status_text, Job}
use web_gobbler.Api.Convert.{job_to_response}

status-cases : (s : JobStatus) → (s ≡ completed) ⊎ (s ≡ failed) ⊎ (s ≡ queued) ⊎ (s ≡ processing)
status-cases completed = inl refl
status-cases failed = inr (inl refl)
status-cases queued = inr (inr (inl refl))
status-cases processing = inr (inr (inr refl))

-- Results are shown of a completed job alone, an error of a failed one alone, as they are stored;
-- and of no job the time of its last update.
pub job_to_response_lem :
    (job : Job)
    → let r = job_to_response job in
      (r.updated_at ≡ none)
      × (r.job_id ≡ job.id)
      × (r.status ≡ status_text job.status)
      × (((job.status ≡ completed) × (r.results ≡ job.result) × (r.error ≡ none))
          ⊎ ((job.status ≡ failed) × (r.results ≡ none) × (r.error ≡ job.error_msg))
          ⊎ (((job.status ≡ queued) ⊎ (job.status ≡ processing))
              × (r.results ≡ none)
              × (r.error ≡ none)))
unfolding job_to_response
job_to_response_lem job = elim (status-cases job.status) [
  | inl e ↦ ground (arith, e)
  | inr (inl e) ↦ ground (arith, e)
  | inr (inr (inl e)) ↦ ground (arith, e)
  | inr (inr (inr e)) ↦ ground (arith, e)
]
