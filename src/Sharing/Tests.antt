-- ===== src/Sharing/Tests.antt =====
-- Inputs for the sharing of jobs: three groups, one of them without files.
use hk.Prelude.{ℕ, ◌/◌, ◌≤◌, ◌<◌, ◌≡◌, refl, ◌⊎◌, min, max, true, List, [], ◌∷◌, arith, length}
use hk.Sharing.{Group, count_groups, sum, share_jobs, split_evenly}
use hk.Sharing.Bounds.{AllShared, AllFull, share_jobs-Handed}
use hk.Sharing.Even.{joined, AllNear, split_evenly-Split}

abbrev groups : List Group
groups =
    record { size = 30; cap = 30 }
    ∷ record { size = 0; cap = 0 }
    ∷ record { size = 2; cap = 1 }
    ∷ []

abbrev files : List ℕ
files = 1 ∷ 2 ∷ 3 ∷ 4 ∷ 5 ∷ 6 ∷ 7 ∷ []

shares : share_jobs groups 8 true ≡ 7 ∷ 0 ∷ 1 ∷ []
unfolding share_jobs
shares = refl

three_batches : split_evenly files 3 ≡ (1 ∷ 2 ∷ 3 ∷ []) ∷ (4 ∷ 5 ∷ []) ∷ (6 ∷ 7 ∷ []) ∷ []
unfolding split_evenly
three_batches = refl

share_jobs-Handed_example :
    AllShared groups (share_jobs groups 8 true)
    × ((sum (share_jobs groups 8 true) ≤ max (max 8 1) (count_groups groups))
        × ((max 8 1 ≤ sum (share_jobs groups 8 true)) ⊎ AllFull groups (share_jobs groups 8 true)))
share_jobs-Handed_example = share_jobs-Handed groups 8 true (
  ((λ h. omega arith), λ h. absurd (omega (arith, h))),
  (
    ((λ h. absurd (omega (arith, h))), λ h. refl),
    (((λ h. omega arith), λ h. absurd (omega (arith, h))), tt),
  ),
)

split_evenly-Split_example :
    (joined (split_evenly files 3) ≡ files)
    × ((length (split_evenly files 3) ≡ min (max 3 1) (length files))
        × ((0 < length files / min (max 3 1) (length files))
            × AllNear (length files / min (max 3 1) (length files)) (split_evenly files 3)))
split_evenly-Split_example = split_evenly-Split 1 (2 ∷ 3 ∷ 4 ∷ 5 ∷ 6 ∷ 7 ∷ []) 3
