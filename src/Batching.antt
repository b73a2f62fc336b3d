-- ===== src/Batching.antt =====
-- src/step/batching.rs: splitting a job whose command would be too long into batches of its files.
-- Rendering a command is a parameter, as are the length of a path, the command of a job and the
-- platform's limits. The search runs on fuel, one step for each file left.
mod Search
mod Split
mod Tests
use hk.Prelude.{
  ℕ, zero, suc, ◌+◌, ◌-◌, ◌*◌, ◌/◌, min, Bool, true, false, ◌&&◌, ◌||◌, Option, none, some, List,
  [], ◌∷◌, ◌++◌, length, take, drop, ltb, leb, if◌then◌else◌,
}

pub record RenderedCommandSize : Type 0 where
  pub aggregate : ℕ
  pub max_argument : Option ℕ
  pub cmd_line : Option ℕ

-- What the limits depend on: the platform, its limits, and whether the step's shell is cmd.exe.
pub record Platform : Type 0 where
  pub windows : Bool
  pub arg_max : ℕ
  pub max_arg_strlen : Option ℕ
  pub cmd_shell : Bool

abbrev pub cmd_command_line_safe_limit : ℕ
cmd_command_line_safe_limit = 8191 / 2

abbrev pub cmd_batch_safe_limit : ℕ
cmd_batch_safe_limit = 8191 - 1024

abbrev pub windows_create_process_safe_limit : ℕ
windows_create_process_safe_limit = 32767 / 2

abbrev pub or_default : Option ℕ → ℕ → ℕ
or_default none d = d
or_default (some n) d = n

shell_command_safe_limit : ℕ → Option ℕ → ℕ
shell_command_safe_limit arg_max none = arg_max / 2
shell_command_safe_limit arg_max (some strlen) = min (arg_max / 2) (strlen - 1)

-- The size that counts, and the limit it counts against.
abbrev pub against : RenderedCommandSize → ℕ → ℕ × ℕ
against size safe_limit = elim size.cmd_line [
  | none ↦ (size.aggregate, safe_limit)
  | some n ↦ (n, min safe_limit cmd_batch_safe_limit)
]

-- `auto_batch_safe_limit`, of whether the command is a structured argv.
auto_batch_safe_limit : Platform → Bool → ℕ
unfolding shell_command_safe_limit
auto_batch_safe_limit platform is_argv =
    if is_argv
    then (if platform.windows then windows_create_process_safe_limit else platform.arg_max / 2)
    else if platform.cmd_shell
    then cmd_command_line_safe_limit
    else shell_command_safe_limit platform.arg_max platform.max_arg_strlen

-- The binary search for the largest number of files that fits.
unfoldable pub search : ℕ → (ℕ → Bool) → ℕ → ℕ → ℕ
search zero p low high = low
search (suc fuel) p low high =
    let mid = (low + high + 1) / 2 in
    let yes = p mid in
    let rest = search fuel p (if yes then mid else low) (if yes then high else mid - 1) in
    if ltb low high then rest else low

module _ (F R S W : Type 0) where
  -- The fields of `StepJob` that batching reads or hands on. All others of a batch are as `StepJob::new`
  -- makes them: its requested run type is the job's run type, it has no progress and no semaphore, its flags
  -- for diffs are unset, and its status is pending.
  pub record Job : Type 0 where
    pub files : List F
    pub run_type : R
    pub check_first : Bool
    pub skip_reason : Option S
    pub workspace_indicator : Option W

  -- `Result<Vec<StepJob>>`: the jobs, or the message that an argument or a command is too long.
  pub data Batched : Type 0 where
    batched : List Job → Batched
    argument_too_long : Batched
    command_too_long : F → Batched

module _ {F R S W : Type 0} (platform : Platform) (path_len : F → ℕ)
    (command : Job F R S W → Option Bool)
    (render : Job F R S W → List F → Option RenderedCommandSize) where
  estimate_files_string_size : List F → ℕ
  estimate_files_string_size [] = 0
  estimate_files_string_size (f ∷ fs) = (path_len f * 2 + 2 + 1) + estimate_files_string_size fs

  -- Whether the longest argument of a structured argv is within the platform's limit.
  unfoldable pub validate_direct_argument_size : Option Bool → Option RenderedCommandSize → Bool
  validate_direct_argument_size none size = true
  validate_direct_argument_size (some false) size = true
  validate_direct_argument_size (some true) none = true
  validate_direct_argument_size (some true) (some size) = elim size.max_argument [
    | none ↦ true
    | some n ↦ elim platform.max_arg_strlen [ none ↦ true | some limit ↦ leb n limit ]
  ]

  -- The size of the command for these files, and the limit for it.
  unfoldable pub measured : Job F R S W → List F → ℕ → ℕ × ℕ
  unfolding estimate_files_string_size
  measured job files limit = elim (render job files) [
    | none ↦ (estimate_files_string_size files, limit)
    | some size ↦ against size limit
  ]

  unfoldable pub fits : Job F R S W → ℕ → List F → Bool
  unfolding measured
  fits job limit files = leb (measured job files limit).0 (measured job files limit).1

  unfoldable pub safe_limit : Job F R S W → ℕ
  unfolding auto_batch_safe_limit
  safe_limit job = elim (command job) [
    | none ↦ platform.arg_max / 2
    | some is_argv ↦ auto_batch_safe_limit platform is_argv
  ]

  abbrev pub new_job : Job F R S W → List F → Job F R S W
  new_job job chunk = record {
    files = chunk;
    run_type = job.run_type;
    check_first = job.check_first;
    skip_reason = job.skip_reason;
    workspace_indicator = job.workspace_indicator;
  }

  abbrev pub prepend : Job F R S W → Batched F R S W → Batched F R S W
  prepend job (batched jobs) = batched (job ∷ jobs)
  prepend job argument_too_long = argument_too_long
  prepend job (command_too_long f) = command_too_long f

  -- The `while` loop over the files of a job, on fuel.
  unfoldable pub chunks : ℕ → Job F R S W → ℕ → List F → Batched F R S W
  unfolding measured search fits
  chunks fuel job limit [] = batched []
  chunks zero job limit (f ∷ fs) = batched []
  chunks (suc fuel) job limit (f ∷ fs) =
      let single_limit = (measured job (f ∷ []) limit).1 in
      let size =
        search (length fs) (λ k. fits job single_limit (take k (f ∷ fs))) 1 (suc (length fs)) in
      let rest = chunks fuel job limit (drop size (f ∷ fs)) in
      if fits job limit (f ∷ [])
      then prepend (new_job job (take size (f ∷ fs))) rest
      else command_too_long f

  abbrev pub has_no_work : Job F R S W → Bool
  has_no_work job = elim job.skip_reason [
    | some _ ↦ true
    | none ↦ elim job.files [ [] ↦ true | _ ∷ _ ↦ false ]
  ]

  -- One turn of the `for` loop.
  unfoldable pub batch_job : Job F R S W → Batched F R S W
  unfolding fits safe_limit chunks validate_direct_argument_size
  batch_job job =
      if has_no_work job
      then batched (job ∷ [])
      else if validate_direct_argument_size (command job) (render job job.files)
      then (if fits job (safe_limit job) job.files
          then batched (job ∷ [])
          else chunks (length job.files) job (measured job job.files (safe_limit job)).1 job.files)
      else argument_too_long

  abbrev pub extend : Batched F R S W → Batched F R S W → Batched F R S W
  extend (batched xs) (batched ys) = batched (xs ++ ys)
  extend (batched xs) r = r
  extend argument_too_long r = argument_too_long
  extend (command_too_long f) r = command_too_long f

  unfoldable pub batch_each : List (Job F R S W) → Batched F R S W
  unfolding batch_job
  batch_each [] = batched []
  batch_each (job ∷ jobs) = extend (batch_job job) (batch_each jobs)

  -- `auto_batch_jobs`, of whether the step reads its files from `stdin`.
  unfoldable pub auto_batch_jobs : Bool → List (Job F R S W) → Batched F R S W
  unfolding batch_each
  auto_batch_jobs stdin jobs = if stdin then batched jobs else batch_each jobs
