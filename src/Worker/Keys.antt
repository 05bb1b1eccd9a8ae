-- ===== src/Worker/Keys.antt =====
-- The keys of the active jobs of ironflow/worker.go, and how many there are, as jobs are acknowledged,
-- cancelled and over.
use ironflow_go.Prelude.{
  ℕ, suc, ◌≡◌, refl, ap, ◌∙◌, List, [], ◌∷◌, Text, true, false, ◌||◌, length, Bool-cases, inl, inr,
  arith,
}
use ironflow_go.Worker.{ActiveJob, same_key, is_active, cancel_jobs, remove_job, acknowledge_job}

-- No two active jobs have the same key.
abbrev pub Distinct : List ActiveJob → Type 0
Distinct [] = Unit
Distinct (job ∷ jobs) = (is_active job.job_id job.execution_seq jobs ≡ false) × Distinct jobs

pub is_active-cancel_jobs :
    (id : Text) (seq : ℕ) (jobs : List ActiveJob)
    → is_active id seq (cancel_jobs jobs) ≡ is_active id seq jobs
unfolding is_active
is_active-cancel_jobs id seq [] = refl
is_active-cancel_jobs id seq (job ∷ jobs) =
    ap (λ b. same_key id seq job || b) (is_active-cancel_jobs id seq jobs)

pub Distinct-cancel_jobs : (jobs : List ActiveJob) → Distinct jobs → Distinct (cancel_jobs jobs)
Distinct-cancel_jobs [] d = tt
Distinct-cancel_jobs (job ∷ jobs) (new, d) =
    (is_active-cancel_jobs job.job_id job.execution_seq jobs ∙ new, Distinct-cancel_jobs jobs d)

pub length-cancel_jobs : (jobs : List ActiveJob) → length (cancel_jobs jobs) ≡ length jobs
length-cancel_jobs [] = refl
length-cancel_jobs (job ∷ jobs) = ap suc (length-cancel_jobs jobs)

pub is_active-acknowledge_job :
    (id : Text) (seq : ℕ) (i : Text) (s : ℕ) (jobs : List ActiveJob)
    → is_active i s (acknowledge_job id seq jobs) ≡ is_active i s jobs
unfolding is_active acknowledge_job
is_active-acknowledge_job id seq i s [] = refl
is_active-acknowledge_job id seq i s (job ∷ jobs) = elim (Bool-cases (same_key id seq job)) [
  | inl same ↦ rw (same, acknowledge_job) refl
  | inr other ↦
      rw (other, acknowledge_job)
        (ap (λ b. same_key i s job || b) (is_active-acknowledge_job id seq i s jobs))
]

pub Distinct-acknowledge_job :
    (id : Text) (seq : ℕ) (jobs : List ActiveJob)
    → Distinct jobs
    → Distinct (acknowledge_job id seq jobs)
unfolding acknowledge_job
Distinct-acknowledge_job id seq [] d = tt
Distinct-acknowledge_job id seq (job ∷ jobs) (new, d) = elim (Bool-cases (same_key id seq job)) [
  | inl same ↦ rw (same, acknowledge_job) (new, d)
  | inr other ↦
      rw (other, acknowledge_job)
        (
          is_active-acknowledge_job id seq job.job_id job.execution_seq jobs ∙ new,
          Distinct-acknowledge_job id seq jobs d,
        )
]

pub length-acknowledge_job :
    (id : Text) (seq : ℕ) (jobs : List ActiveJob)
    → length (acknowledge_job id seq jobs) ≡ length jobs
unfolding acknowledge_job
length-acknowledge_job id seq [] = refl
length-acknowledge_job id seq (job ∷ jobs) = elim (Bool-cases (same_key id seq job)) [
  | inl same ↦ rw (same, acknowledge_job) refl
  | inr other ↦ rw (other, acknowledge_job) (ap suc (length-acknowledge_job id seq jobs))
]

-- What is not active is not active after another job is over.
pub is_active-remove_job :
    (id : Text) (seq : ℕ) (i : Text) (s : ℕ) (jobs : List ActiveJob)
    → is_active i s jobs ≡ false
    → is_active i s (remove_job id seq jobs) ≡ false
unfolding is_active remove_job
is_active-remove_job id seq i s [] h = refl
is_active-remove_job id seq i s (job ∷ jobs) h = elim (Bool-cases (same_key id seq job)) [
  | inl same ↦ rw (same, remove_job) (ground arith)
  | inr other ↦
      rw (other, remove_job) (ground (arith, is_active-remove_job id seq i s jobs (ground arith)))
]

pub Distinct-remove_job :
    (id : Text) (seq : ℕ) (jobs : List ActiveJob)
    → Distinct jobs
    → Distinct (remove_job id seq jobs)
unfolding remove_job
Distinct-remove_job id seq [] d = tt
Distinct-remove_job id seq (job ∷ jobs) (new, d) = elim (Bool-cases (same_key id seq job)) [
  | inl same ↦ rw (same, remove_job) d
  | inr other ↦
      rw (other, remove_job)
        (
          is_active-remove_job id seq job.job_id job.execution_seq jobs new,
          Distinct-remove_job id seq jobs d,
        )
]

pub length-remove_job :
    (id : Text) (seq : ℕ) (jobs : List ActiveJob)
    → is_active id seq jobs ≡ true
    → suc (length (remove_job id seq jobs)) ≡ length jobs
unfolding is_active remove_job
length-remove_job id seq [] h = absurd cc
length-remove_job id seq (job ∷ jobs) h = elim (Bool-cases (same_key id seq job)) [
  | inl same ↦ rw (same, remove_job) refl
  | inr other ↦ rw (other, remove_job) (ap suc (length-remove_job id seq jobs (ground arith)))
]
