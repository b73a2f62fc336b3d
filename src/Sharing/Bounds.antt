-- ===== src/Sharing/Bounds.antt =====
-- src/step/job_builder.rs: how many jobs are shared, and that every group gets what it can use.
use native.Mathlib.Nat.{zero-div, div-add-mod'}
use hk.Prelude.{
  ℕ, zero, suc, ◌+◌, ◌-◌, ◌*◌, ◌/◌, ◌%◌, ◌≤◌, ◌<◌, ◌≡◌, refl, ap, ◌∙◌, ◌⊎◌, inl, inr, min, max,
  Bool, true, false, ◌&&◌, Option, none, some, List, [], ◌∷◌, arith, ltb, ◌==◌, if◌then◌else◌,
  if_cases, Bool-cases,
}
use hk.Sharing.{
  Group, batch_cap, count_groups, total_size, sum, floor_of, first_counts, Candidate, is_further,
  choose, next_group, raise, hand_out, share_jobs, capped, batch_counts,
}

-- Each group's count is within its cap; it is zero for a group without files, else at least one.
abbrev pub AllShared : List Group → List ℕ → Type 0
AllShared [] [] = Unit
AllShared [] (c ∷ cs) = ⊥
AllShared (g ∷ gs) [] = ⊥
AllShared (g ∷ gs) (c ∷ cs) =
    ((c ≤ g.cap) × ((0 < g.size → 0 < c) × (g.size ≡ 0 → c ≡ 0))) × AllShared gs cs

-- A cap for each group: at least one if it has files, else none.
abbrev pub AllCaps : List Group → Type 0
AllCaps [] = Unit
AllCaps (g ∷ gs) = ((0 < g.size → 0 < g.cap) × (g.size ≡ 0 → g.cap ≡ 0)) × AllCaps gs

-- Every group has as many jobs as it can use.
abbrev pub AllFull : List Group → List ℕ → Type 0
AllFull [] cs = Unit
AllFull (g ∷ gs) [] = Unit
AllFull (g ∷ gs) (c ∷ cs) = (g.cap ≤ c) × AllFull gs cs

abbrev CanRaise : List Group → List ℕ → ℕ → Type 0
CanRaise [] cs i = ⊥
CanRaise (g ∷ gs) [] i = ⊥
CanRaise (g ∷ gs) (c ∷ cs) zero = c < g.cap
CanRaise (g ∷ gs) (c ∷ cs) (suc i) = CanRaise gs cs i

abbrev Chosen : List Group → List ℕ → Option Candidate → Type 0
Chosen gs cs none = AllFull gs cs
Chosen gs cs (some b) = CanRaise gs cs b.position

next_group-Chosen :
    (jobs total : ℕ) (gs : List Group) (cs : List ℕ) → Chosen gs cs (next_group jobs total gs cs)
unfolding next_group
next_group-Chosen jobs total [] cs = tt
next_group-Chosen jobs total (g ∷ gs) [] = tt
next_group-Chosen jobs total (g ∷ gs) (c ∷ cs) =
    step (next_group jobs total gs cs) (next_group-Chosen jobs total gs cs)
  where
    step :
        (o : Option Candidate) → Chosen gs cs o → Chosen (g ∷ gs) (c ∷ cs) (choose jobs total g c o)
    step none h =
        if_cases {A = Option Candidate} (Chosen (g ∷ gs) (c ∷ cs)) (ltb c g.cap) _ _
          (λ e. ground (arith, e)) (λ e. (ground (arith, e), h))
    step (some b) h =
        if_cases {A = Option Candidate} (Chosen (g ∷ gs) (c ∷ cs))
          (ltb c g.cap && is_further jobs total g c b) _ _ (λ e. ground (arith, e)) (λ e. h)

raise-AllShared :
    (gs : List Group) (cs : List ℕ) (i : ℕ)
    → AllCaps gs
    → CanRaise gs cs i
    → AllShared gs cs
    → AllShared gs (raise cs i) × (sum (raise cs i) ≡ suc (sum cs))
unfolding raise sum
raise-AllShared [] cs i p h a = absurd h
raise-AllShared (g ∷ gs) [] i p h a = absurd h
raise-AllShared (g ∷ gs) (c ∷ cs) zero (p, ps) h ((a, (b, d)), as') = (
  ((omega (arith, h), ((λ _. omega arith), λ z. absurd (omega (arith, p.1 z, h)))), as'),
  omega arith,
)
raise-AllShared (g ∷ gs) (c ∷ cs) (suc i) (p, ps) h (a, as') =
    let (x, y) = raise-AllShared gs cs i ps h as' in ((a, x), omega (arith, y))

-- What handing out leaves.
abbrev Handed : List Group → List ℕ → ℕ → List ℕ → Type 0
Handed gs cs left r =
    AllShared gs r × ((sum r ≤ sum cs + left) × ((sum r ≡ sum cs + left) ⊎ AllFull gs r))

hand_out-Handed :
    (jobs total : ℕ) (gs : List Group) (left : ℕ) (cs : List ℕ)
    → AllCaps gs
    → AllShared gs cs
    → Handed gs cs left (hand_out jobs total gs left cs)
unfolding hand_out
hand_out-Handed jobs total gs zero cs p a = (a, (omega arith, inl (omega arith)))
hand_out-Handed jobs total gs (suc left) cs p a =
    step (next_group jobs total gs cs) (next_group-Chosen jobs total gs cs)
      λ i q. hand_out-Handed jobs total gs left (raise cs i) p q
  where
    step :
        (o : Option Candidate)
        → Chosen gs cs o
        → ((i : ℕ)
            → AllShared gs (raise cs i)
            → Handed gs (raise cs i) left (hand_out jobs total gs left (raise cs i)))
        → Handed gs cs
            (suc left)
            (elim o [ none ↦ cs | some b ↦ hand_out jobs total gs left (raise cs b.position) ])
    step none h f = (a, (omega arith, inr h))
    step (some b) h f =
        let (x, e) = raise-AllShared gs cs b.position p h a in
        let (y, (z, w)) = f b.position x in
        (y, (omega (arith, z, e), elim w [ inl v ↦ inl (omega (arith, v, e)) | inr v ↦ inr v ]))

first_counts-AllShared :
    (floor : ℕ) (gs : List Group) → AllCaps gs → 0 < floor → AllShared gs (first_counts floor gs)
unfolding first_counts
first_counts-AllShared floor [] p h = tt
first_counts-AllShared floor (g ∷ gs) ((p, q), ps) h = (
  if_cases {A = ℕ} (λ c. (c ≤ g.cap) × ((0 < g.size → 0 < c) × (g.size ≡ 0 → c ≡ 0))) (g.size == 0)
      _ _ (λ e. (omega arith, ((λ z. ground (arith, e, z)), λ _. refl)))
      (λ e.
        let some_files : 0 < g.size = ground (arith, e) in
        (
          omega (arith, p some_files),
          ((λ _. omega arith), λ z. absurd (omega (arith, z, some_files))),
        )),
  first_counts-AllShared floor gs ps h,
)

first_counts-sum :
    (floor : ℕ) (gs : List Group)
    → 0 < floor
    → sum (first_counts floor gs) ≤ floor * count_groups gs
unfolding first_counts sum count_groups
first_counts-sum floor [] h = omega arith
first_counts-sum floor (g ∷ gs) h =
    let ih = first_counts-sum floor gs h in
    step g.size (min floor g.cap) (sum (first_counts floor gs)) (count_groups gs) (omega arith) ih
  where
    step :
        (size m s n : ℕ)
        → m ≤ floor
        → s ≤ floor * n
        → (if size == 0 then 0 else max m 1) + s ≤ floor * ((if ltb 0 size then 1 else 0) + n)
    step zero m s n a b = omega (arith, b)
    step (suc size) m s n a b = grind (arith, a, b, h)

floor-groups :
    (jobs groups : ℕ) (equal_share : Bool)
    → floor_of jobs groups equal_share * groups ≤ max jobs groups
unfolding floor_of
floor-groups jobs zero true = omega arith
floor-groups jobs (suc g) true =
    let e : max (suc g) 1 ≡ suc g = omega arith in
    rw e (step (jobs / suc g) (suc g) jobs (omega (arith, div-add-mod' jobs (suc g))))
  where
    step : (q n j : ℕ) → q * n ≤ j → max q 1 * n ≤ max j n
    step zero n j h = omega arith
    step (suc q) n j h = let e : max (suc q) 1 ≡ suc q = omega arith in rw e (omega (arith, h))
floor-groups jobs groups false = omega arith

-- Where the cap of each group with files is at least one and that of each group without is zero, the
-- counts add up to at most `jobs`, or one if that is zero, or to as many as there are groups with files
-- if these are more; and all jobs are handed out unless every group has as many as its cap. No group
-- gets more than its cap, a group with files gets at least one, and a group without files none.
pub share_jobs-Handed :
    (gs : List Group) (jobs : ℕ) (equal_share : Bool)
    → AllCaps gs
    → AllShared gs (share_jobs gs jobs equal_share)
      × ((sum (share_jobs gs jobs equal_share) ≤ max (max jobs 1) (count_groups gs))
          × ((max jobs 1 ≤ sum (share_jobs gs jobs equal_share))
              ⊎ AllFull gs (share_jobs gs jobs equal_share)))
unfolding share_jobs
share_jobs-Handed gs jobs equal_share p =
    let floor = floor_of (max jobs 1) (count_groups gs) equal_share in
    let cs = first_counts floor gs in
    let positive = floor_positive (max jobs 1) (count_groups gs) equal_share in
    let (a, (b, c)) =
      hand_out-Handed (max jobs 1) (max (total_size gs) 1) gs (max jobs 1 - sum cs) cs p
        (first_counts-AllShared floor gs p positive) in
    (
      a,
      (
        omega (
          arith,
          b,
          first_counts-sum floor gs positive,
          floor-groups (max jobs 1) (count_groups gs) equal_share,
        ),
        elim c [ inl e ↦ inl (omega (arith, e)) | inr f ↦ inr f ],
      ),
    )
  where
    floor_positive : (jobs groups : ℕ) (equal_share : Bool) → 0 < floor_of jobs groups equal_share
    floor_positive jobs groups true = omega arith
    floor_positive jobs groups false = omega arith

capped-AllCaps : (min_files : ℕ) (sizes : List ℕ) → AllCaps (capped min_files sizes)
unfolding batch_cap
capped-AllCaps min_files [] = tt
capped-AllCaps min_files (size ∷ sizes) = (
  (
    (λ h. ground (arith, h)),
    λ h. ap (λ s. batch_cap s min_files) h ∙ ap (λ t. max t 0) (zero-div (max min_files 1)),
  ),
  capped-AllCaps min_files sizes,
)

-- No more batches than leave each with at least that many files, or one.
abbrev pub AllLarge : ℕ → List ℕ → List ℕ → Type 0
AllLarge min_files [] cs = Unit
AllLarge min_files (size ∷ sizes) [] = Unit
AllLarge min_files (size ∷ sizes) (c ∷ cs) =
    ((c ≤ 1) ⊎ (c * max min_files 1 ≤ size)) × AllLarge min_files sizes cs

cap-large : (q r k size c : ℕ) → q * k + r ≡ size → c ≤ q → c * k ≤ size
cap-large q r k size c h le = grind (arith, h, le)

capped-AllLarge :
    (min_files : ℕ) (sizes cs : List ℕ)
    → AllShared (capped min_files sizes) cs
    → AllLarge min_files sizes cs
unfolding batch_cap
capped-AllLarge min_files [] cs h = tt
capped-AllLarge min_files (size ∷ sizes) [] h = tt
capped-AllLarge min_files (size ∷ sizes) (c ∷ cs) ((a, b), h) = (
  elim (Bool-cases (ltb 1 c)) [
    | inl e ↦ inr (
        cap-large (size / max min_files 1) (size % max min_files 1) (max min_files 1) size c
          (div-add-mod' size (max min_files 1)) (ground (arith, a, e)))
    | inr e ↦ inl (ground (arith, e))
  ],
  capped-AllLarge min_files sizes cs h,
)

-- `batch_counts` gives a group more than one batch only if the group has `min_files` files, or one if
-- that is zero, for each of them. It gives all groups together at most `jobs` batches, or one if that is
-- zero, or as many as there are groups with files if these are more.
pub batch_counts-AllLarge :
    (sizes : List ℕ) (jobs min_files : ℕ)
    → AllLarge min_files sizes (batch_counts sizes jobs min_files)
      × (sum (batch_counts sizes jobs min_files)
          ≤ max (max jobs 1) (count_groups (capped min_files sizes)))
unfolding batch_counts
batch_counts-AllLarge sizes jobs min_files =
    let (a, (b, c)) =
      share_jobs-Handed (capped min_files sizes) jobs false (capped-AllCaps min_files sizes) in
    (capped-AllLarge min_files sizes _ a, b)
