-- ===== src/Batching/Split.antt =====
-- src/step/batching.rs: the batches of a job.
use hk.Prelude.{
  ℕ, zero, suc, ◌<◌, ◌≤◌, ◌≡◌, refl, ap, ap₂, sym, subst, ◌∙◌, inl, Bool, true, false, Option, List,
  [], ◌∷◌, ◌++◌, arith, append-nil, append_assoc, length, length-drop, length-take, take, drop,
  take-append-drop, if_cases,
}
use hk.Batching.{
  RenderedCommandSize, Platform, Job, Batched, batched, argument_too_long, command_too_long,
  validate_direct_argument_size, measured, fits, safe_limit, search, new_job, prepend, chunks,
  has_no_work, batch_job, extend, batch_each, auto_batch_jobs,
}
use hk.Batching.Search.{search-Found}

module _ {F R S W : Type 0} (platform : Platform) (path_len : F → ℕ)
    (command : Job F R S W → Option Bool)
    (render : Job F R S W → List F → Option RenderedCommandSize) where
  -- The files of several jobs, one job after another.
  abbrev pub files_of : List (Job F R S W) → List F
  files_of [] = []
  files_of (job ∷ jobs) = job.files ++ files_of jobs

  -- Jobs that differ from one only in their files, of which they have some, and fit the limit.
  abbrev pub AllBatches : Job F R S W → ℕ → List (Job F R S W) → Type 0
  AllBatches job limit [] = Unit
  AllBatches job limit (b ∷ bs) =
      ((b ≡ new_job platform path_len command render job b.files)
        × ((0 < length b.files) × (fits platform path_len command render job limit b.files ≡ true)))
      × AllBatches job limit bs

  abbrev pub Outcome : Job F R S W → ℕ → List F → Batched F R S W → Type 0
  Outcome job limit fs (batched out) = (files_of out ≡ fs) × AllBatches job limit out
  Outcome job limit fs argument_too_long = ⊥
  Outcome job limit fs (command_too_long f) =
      (before : List F) × ((after : List F) × ((fs ≡ before ++ f ∷ after)
          × (fits platform path_len command render job limit (f ∷ []) ≡ false)))

  fits-limit :
      (job : Job F R S W) (g files : List F) (limit : ℕ)
      → fits platform path_len command render job
          (measured platform path_len command render job g limit).1
          files
        ≡ true
      → fits platform path_len command render job limit files ≡ true
  unfolding fits measured
  fits-limit job g files limit h = ground arith

  fits_self :
      (job : Job F R S W) (files : List F) (limit : ℕ)
      → fits platform path_len command render job limit files ≡ true
      → fits platform path_len command render job
          (measured platform path_len command render job files limit).1
          files
        ≡ true
  unfolding fits measured
  fits_self job files limit h = ground arith

  prepend-Outcome :
      (job : Job F R S W) (limit : ℕ) (chunk rest fs : List F) (r : Batched F R S W)
      → chunk ++ rest ≡ fs
      → 0 < length chunk
      → fits platform path_len command render job limit chunk ≡ true
      → Outcome job limit rest r
      → Outcome job limit fs (
          prepend platform path_len command render
            (new_job platform path_len command render job chunk)
            r)
  prepend-Outcome job limit chunk rest fs (batched out) e some_files ok (a, b) =
      (ap (λ t. chunk ++ t) a ∙ e, ((refl, (some_files, ok)), b))
  prepend-Outcome job limit chunk rest fs argument_too_long e some_files ok h = h
  prepend-Outcome job limit chunk rest fs (command_too_long f) e some_files ok
        (before, (after, (a, b))) =
      (
        chunk ++ before,
        (after, (sym e ∙ ap (λ t. chunk ++ t) a ∙ sym (append_assoc chunk before (f ∷ after)), b)),
      )

  -- The `while` loop takes every file in order into batches that have files and fit the limit, or
  -- stops at a file whose own command is over the limit.
  chunks-Outcome :
      (fuel : ℕ) (job : Job F R S W) (limit : ℕ) (fs : List F)
      → length fs ≤ fuel
      → Outcome job limit fs (chunks platform path_len command render fuel job limit fs)
  unfolding chunks
  chunks-Outcome fuel job limit [] h = (refl, tt)
  chunks-Outcome zero job limit (f ∷ fs) h = absurd (omega (arith, h))
  chunks-Outcome (suc fuel) job limit (f ∷ fs) h =
      if_cases {A = Batched F R S W} (Outcome job limit (f ∷ fs))
        (fits platform path_len command render job limit (f ∷ [])) _ _
        (λ e.
          let (x, (y, z)) =
            search-Found (length fs) p 1 (suc (length fs)) (suc (length fs))
              (fits_self job (f ∷ []) limit e, (inl refl, (omega arith, omega arith))) in
          prepend-Outcome job limit (take n (f ∷ fs)) (drop n (f ∷ fs)) (f ∷ fs)
            (chunks platform path_len command render fuel job limit (drop n (f ∷ fs)))
            (take-append-drop n (f ∷ fs)) (omega (arith, length-take n (f ∷ fs), y))
            (fits-limit job (f ∷ []) (take n (f ∷ fs)) limit x.0)
            (chunks-Outcome fuel job limit (drop n (f ∷ fs))
              (omega (arith, length-drop n (f ∷ fs), y, h))))
        λ e. ([], (fs, (refl, e)))
    where
      p : ℕ → Bool
      p k =
          fits platform path_len command render job
            (measured platform path_len command render job (f ∷ []) limit).1 (take k (f ∷ fs))

      n : ℕ
      n = search (length fs) p 1 (suc (length fs))

  -- A job with files and no reason to skip it, whose longest argument is within the platform's limit,
  -- is split into batches that take its files in order, have its run type, its check-first flag, its skip
  -- reason and its workspace, and fit the limit, unless the command for one of its files alone is over the
  -- limit: then the result is the message for a file.
  pub batch_job-Outcome :
      (job : Job F R S W)
      → has_no_work platform path_len command render job ≡ false
      → validate_direct_argument_size platform path_len command render
          (command job)
          (render job job.files)
        ≡ true
      → Outcome job
          (measured platform path_len command render job job.files
            (safe_limit platform path_len command render job)).1
          job.files
          (batch_job platform path_len command render job)
  unfolding batch_job
  batch_job-Outcome job work ok =
      rw (work, ok)
        (if_cases {A = Batched F R S W}
          (Outcome job
            (measured platform path_len command render job job.files
              (safe_limit platform path_len command render job)).1
            job.files)
          (fits platform path_len command render job
            (safe_limit platform path_len command render job) job.files)
          _ _
          (λ e. (
            append-nil job.files,
            (
              (
                refl,
                (
                  some_files job work,
                  fits_self job job.files (safe_limit platform path_len command render job) e,
                ),
              ),
              tt,
            ),
          ))
          λ e. chunks-Outcome (length job.files) job _ job.files (omega arith))
    where
      some_files :
          (job : Job F R S W)
          → has_no_work platform path_len command render job ≡ false
          → 0 < length job.files
      some_files job h = ground arith

  abbrev pub Keeps : List F → Batched F R S W → Type 0
  Keeps fs (batched out) = files_of out ≡ fs
  Keeps fs argument_too_long = Unit
  Keeps fs (command_too_long f) = Unit

  Outcome-Keeps :
      (job : Job F R S W) (limit : ℕ) (fs : List F) (r : Batched F R S W)
      → Outcome job limit fs r
      → Keeps fs r
  Outcome-Keeps job limit fs (batched out) h = h.0
  Outcome-Keeps job limit fs argument_too_long h = tt
  Outcome-Keeps job limit fs (command_too_long f) h = tt

  batch_job-Keeps :
      (job : Job F R S W) → Keeps job.files (batch_job platform path_len command render job)
  unfolding batch_job
  batch_job-Keeps job =
      if_cases {A = Batched F R S W} (Keeps job.files)
        (has_no_work platform path_len command render job) _ _ (λ _. append-nil job.files)
        λ _.
          if_cases {A = Batched F R S W} (Keeps job.files)
            (validate_direct_argument_size platform path_len command render (command job)
              (render job job.files))
            _ _
            (λ _.
              if_cases {A = Batched F R S W} (Keeps job.files)
                (fits platform path_len command render job
                  (safe_limit platform path_len command render job) job.files)
                _ _ (λ _. append-nil job.files)
                λ _.
                  Outcome-Keeps job _ job.files _
                    (chunks-Outcome (length job.files) job _ job.files (omega arith)))
            (λ _. tt)

  files_of-append : (xs ys : List (Job F R S W)) → files_of (xs ++ ys) ≡ files_of xs ++ files_of ys
  files_of-append [] ys = refl
  files_of-append (x ∷ xs) ys =
      ap (λ t. x.files ++ t) (files_of-append xs ys)
      ∙ sym (append_assoc x.files (files_of xs) (files_of ys))

  extend-Keeps :
      (fs gs : List F) (r q : Batched F R S W)
      → Keeps fs r
      → Keeps gs q
      → Keeps (fs ++ gs) (extend platform path_len command render r q)
  extend-Keeps fs gs (batched xs) (batched ys) a b = files_of-append xs ys ∙ ap₂ (λ s t. s ++ t) a b
  extend-Keeps fs gs (batched xs) argument_too_long a b = tt
  extend-Keeps fs gs (batched xs) (command_too_long f) a b = tt
  extend-Keeps fs gs argument_too_long q a b = tt
  extend-Keeps fs gs (command_too_long f) q a b = tt

  batch_each-Keeps :
      (jobs : List (Job F R S W))
      → Keeps (files_of jobs) (batch_each platform path_len command render jobs)
  unfolding batch_each
  batch_each-Keeps [] = refl
  batch_each-Keeps (job ∷ jobs) =
      extend-Keeps job.files (files_of jobs) (batch_job platform path_len command render job)
        (batch_each platform path_len command render jobs) (batch_job-Keeps job)
        (batch_each-Keeps jobs)

  -- Whatever the jobs that `auto_batch_jobs` returns, their files are the files of the jobs it was
  -- given, in the same order.
  pub auto_batch_jobs-files :
      (stdin : Bool) (jobs out : List (Job F R S W))
      → auto_batch_jobs platform path_len command render stdin jobs ≡ batched out
      → files_of out ≡ files_of jobs
  unfolding auto_batch_jobs
  auto_batch_jobs-files stdin jobs out h = subst (Keeps (files_of jobs)) h (
      if_cases {A = Batched F R S W} (Keeps (files_of jobs)) stdin _ _ (λ _. refl)
        (λ _. batch_each-Keeps jobs))
