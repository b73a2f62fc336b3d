-- ===== src/StageQueue/Tests.antt =====
-- src/stage_queue.rs: two callers whose files one `add` stages.
use hk.Prelude.{ℕ, ◌≡◌, refl, none, some, [], ◌∷◌, ◌==◌, ==_iff}
use hk.StageQueue.{PathEq, Caller, System, queue, finish, initial}
use hk.StageQueue.Shared.{Reach, start, next, queues, finishes, AllServed, returned-served}

abbrev numbered : PathEq ℕ
numbered = record { same = λ a b. a == b; same_iff = ==_iff }

-- Two callers queue files 1 and 2, and 2 and 3.
abbrev two_queued : System ℕ
two_queued = queue numbered (queue numbered initial (1 ∷ 2 ∷ [])) (2 ∷ 3 ∷ [])

one_add : two_queued.pending ≡ 1 ∷ 2 ∷ 3 ∷ []
unfolding queue
one_add = refl

-- The first has the mutex back first, and its `add` fails with error 5.
abbrev both_back : System ℕ
both_back = finish numbered (finish numbered two_queued 1 (some 5)) 0 none

Reach-two_queued : Reach numbered two_queued
Reach-two_queued = next (next start (queues (1 ∷ 2 ∷ []))) (queues (2 ∷ 3 ∷ []))

Reach-both_back : Reach numbered both_back
Reach-both_back = next (next Reach-two_queued (finishes 1 (some 5))) (finishes 0 none)

returned-served_example : AllServed numbered both_back both_back.returned
returned-served_example = returned-served numbered Reach-both_back

abbrev second : Caller ℕ
second = record { asked = 2 ∷ 3 ∷ []; cell = 0 }
