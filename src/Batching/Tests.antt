-- ===== src/Batching/Tests.antt =====
-- Inputs for the batching of jobs: a step whose command is as long as its files, on a platform that
-- takes at most ten bytes, so that seven files make three batches.
use hk.Prelude.{ℕ, ◌+◌, ◌≡◌, refl, Bool, true, false, Option, none, some, List, [], ◌∷◌}
use hk.Batching.{
  RenderedCommandSize, Platform, Job, batched, validate_direct_argument_size, measured, safe_limit,
  batch_job, auto_batch_jobs,
}
use hk.Batching.Split.{Outcome, files_of, batch_job-Outcome, auto_batch_jobs-files}

abbrev platform : Platform
platform = record { windows = false; arg_max = 20; max_arg_strlen = none; cmd_shell = false }

abbrev SmallJob : Type 0
SmallJob = Job ℕ Unit Unit Unit

-- A file is its length.
abbrev path_len : ℕ → ℕ
path_len n = n

abbrev command : SmallJob → Option Bool
command job = some false

abbrev total : List ℕ → ℕ
total [] = 0
total (n ∷ ns) = n + total ns

abbrev render : SmallJob → List ℕ → Option RenderedCommandSize
render job files = some (record { aggregate = total files; max_argument = none; cmd_line = none })

abbrev job_of : List ℕ → SmallJob
job_of files = record {
  files = files;
  run_type = tt;
  check_first = true;
  skip_reason = none;
  workspace_indicator = none;
}

abbrev job : SmallJob
job = job_of (3 ∷ 4 ∷ 2 ∷ 5 ∷ 4 ∷ 9 ∷ 1 ∷ [])

abbrev batches : List SmallJob
batches = job_of (3 ∷ 4 ∷ 2 ∷ []) ∷ job_of (5 ∷ 4 ∷ []) ∷ job_of (9 ∷ 1 ∷ []) ∷ []

batch_job-Outcome_example :
    Outcome platform path_len command render job
      (measured platform path_len command render job job.files
        (safe_limit platform path_len command render job)).1
      job.files
      (batch_job platform path_len command render job)
unfolding validate_direct_argument_size
batch_job-Outcome_example = batch_job-Outcome platform path_len command render job refl refl

batches-job : batch_job platform path_len command render job ≡ batched batches
unfolding batch_job
batches-job = refl

auto_batch_jobs-files_example :
    files_of platform path_len command render batches
    ≡ files_of platform path_len command render (job ∷ [])
unfolding auto_batch_jobs
auto_batch_jobs-files_example =
    auto_batch_jobs-files platform path_len command render false (job ∷ []) batches refl
