-- ===== src/Sharing.antt =====
-- src/step/job_builder.rs: sharing the jobs of a run between groups of files, and splitting a group's
-- files into batches. `sizes`, `caps` and `counts` are walked side by side. Whether a step takes part,
-- and its files, are what `shares_batch_jobs` and `filter_files` gave.
mod Bounds
mod Even
mod Tests
use hk.Prelude.{
  ℕ, zero, suc, ◌+◌, ◌-◌, ◌*◌, ◌/◌, ◌%◌, min, max, Bool, true, false, ◌&&◌, Option, none, some,
  List, [], ◌∷◌, ◌++◌, Bytes, length, take, drop, ltb, leb, ◌==◌, if◌then◌else◌,
}

pub record Group : Type 0 where
  pub size : ℕ
  pub cap : ℕ

unfoldable pub batch_cap : ℕ → ℕ → ℕ
batch_cap size min_files = max (size / max min_files 1) (if ltb 0 size then 1 else 0)

-- How many groups have files.
unfoldable pub count_groups : List Group → ℕ
count_groups [] = 0
count_groups (g ∷ gs) = (if ltb 0 g.size then 1 else 0) + count_groups gs

unfoldable pub total_size : List Group → ℕ
total_size [] = 0
total_size (g ∷ gs) = g.size + total_size gs

unfoldable pub sum : List ℕ → ℕ
sum [] = 0
sum (c ∷ cs) = c + sum cs

unfoldable pub floor_of : ℕ → ℕ → Bool → ℕ
floor_of jobs groups equal_share = if equal_share then max (jobs / max groups 1) 1 else 1

unfoldable pub first_counts : ℕ → List Group → List ℕ
first_counts floor [] = []
first_counts floor (g ∷ gs) =
    (if g.size == 0 then 0 else max (min floor g.cap) 1) ∷ first_counts floor gs

-- A group that may get one more job: its position, size and count.
pub record Candidate : Type 0 where
  pub position : ℕ
  pub size : ℕ
  pub count : ℕ

-- Whether the group is further below its share than the candidate.
abbrev pub is_further : ℕ → ℕ → Group → ℕ → Candidate → Bool
is_further jobs total g c b = ltb (b.size * jobs + c * total) (g.size * jobs + b.count * total)

abbrev pub here : Group → ℕ → Option Candidate
here g c = if ltb c g.cap then some (record { position = 0; size = g.size; count = c }) else none

abbrev pub choose : ℕ → ℕ → Group → ℕ → Option Candidate → Option Candidate
choose jobs total g c none = here g c
choose jobs total g c (some b) =
    if ltb c g.cap && is_further jobs total g c b
    then some (record { position = 0; size = g.size; count = c })
    else some (record b { position = suc b.position })

-- `filter` and `max_by_key`, which takes the last of the greatest.
unfoldable pub next_group : ℕ → ℕ → List Group → List ℕ → Option Candidate
next_group jobs total [] cs = none
next_group jobs total (g ∷ gs) [] = none
next_group jobs total (g ∷ gs) (c ∷ cs) = choose jobs total g c (next_group jobs total gs cs)

-- `counts[i] += 1`.
unfoldable pub raise : List ℕ → ℕ → List ℕ
raise [] i = []
raise (c ∷ cs) zero = suc c ∷ cs
raise (c ∷ cs) (suc i) = c ∷ raise cs i

-- The `while` loop, by the number of jobs left.
unfoldable pub hand_out : ℕ → ℕ → List Group → ℕ → List ℕ → List ℕ
unfolding next_group raise
hand_out jobs total gs zero cs = cs
hand_out jobs total gs (suc left) cs = elim (next_group jobs total gs cs) [
  | none ↦ cs
  | some b ↦ hand_out jobs total gs left (raise cs b.position)
]

unfoldable pub share_jobs : List Group → ℕ → Bool → List ℕ
unfolding count_groups total_size sum floor_of first_counts hand_out
share_jobs gs given equal_share =
    let jobs = max given 1 in
    let cs = first_counts (floor_of jobs (count_groups gs) equal_share) gs in
    hand_out jobs (max (total_size gs) 1) gs (jobs - sum cs) cs

abbrev pub capped : ℕ → List ℕ → List Group
capped min_files [] = []
capped min_files (size ∷ sizes) =
    record { size = size; cap = batch_cap size min_files } ∷ capped min_files sizes

unfoldable pub batch_counts : List ℕ → ℕ → ℕ → List ℕ
unfolding share_jobs batch_cap
batch_counts sizes jobs min_files = share_jobs (capped min_files sizes) jobs false

-- A step that shares its batch jobs: its name, its number of files and its `batch_min_files`.
pub record Sharer : Type 0 where
  pub name : Bytes
  pub size : ℕ
  pub min_files : ℕ

abbrev pub with_files : List Sharer → List Sharer
with_files [] = []
with_files (s ∷ ss) = if s.size == 0 then with_files ss else s ∷ with_files ss

abbrev pub groups_of : List Sharer → List Group
groups_of [] = []
groups_of (s ∷ ss) = record { size = s.size; cap = batch_cap s.size s.min_files } ∷ groups_of ss

abbrev pub zip_names : List Sharer → List ℕ → List (Bytes × ℕ)
zip_names [] cs = []
zip_names (s ∷ ss) [] = []
zip_names (s ∷ ss) (c ∷ cs) = (s.name, c) ∷ zip_names ss cs

unfoldable pub shared_batch_jobs : List Sharer → ℕ → List (Bytes × ℕ)
unfolding share_jobs batch_cap
shared_batch_jobs steps jobs =
    let sharers = with_files steps in
    if ltb (length sharers) 2
    then []
    else zip_names sharers (share_jobs (groups_of sharers) jobs true)

module _ {ℓ} {A : Type ℓ} where
  -- The batches from the `i`-th on.
  unfoldable pub split_rest : ℕ → ℕ → ℕ → ℕ → List A → List (List A)
  split_rest base extra i zero files = []
  split_rest base extra i (suc n) files =
      let size = base + (if ltb i extra then 1 else 0) in
      take size files ∷ split_rest base extra (suc i) n (drop size files)

  unfoldable pub split_evenly : List A → ℕ → List (List A)
  unfolding split_rest
  split_evenly [] given = []
  split_evenly (f ∷ fs) given =
      let count = min (max given 1) (length (f ∷ fs)) in
      split_rest (length (f ∷ fs) / count) (length (f ∷ fs) % count) 0 count (f ∷ fs)
