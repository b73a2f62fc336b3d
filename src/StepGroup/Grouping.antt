-- ===== src/StepGroup/Grouping.antt =====
-- src/step_group.rs, `build_all`: which steps of a hook run together. A step is its name and whether it is
-- exclusive, and the steps of a group are in the order of their map.
use hk.Prelude.{
  ◌≡◌, refl, ap, sym, ◌∙◌, inl, inr, Bool, true, false, ◌||◌, not, List, [], ◌∷◌, ◌++◌, arith,
  Bytes, bytes_eq, filter, is_empty, append_assoc, if◌then◌else◌, if_cases, Bool-cases,
}

pub record Step : Type 0 where
  pub name : Bytes
  pub exclusive : Bool

pub data StepOrGroup : Type 0 where
  step : Step → StepOrGroup
  group : List Step → StepOrGroup

-- `IndexMap::insert`: a step of that name is replaced in its place.
unfoldable pub insert_step : Step → List Step → List Step
unfolding bytes_eq
insert_step s [] = s ∷ []
insert_step s (t ∷ ts) =
    let rest = insert_step s ts in if bytes_eq t.name s.name then s ∷ ts else t ∷ rest

-- An insertion into the last group.
unfoldable pub insert_in_last : Step → List (List Step) → List (List Step)
unfolding insert_step
insert_in_last s [] = []
insert_in_last s (g ∷ []) = insert_step s g ∷ []
insert_in_last s (g ∷ h ∷ gs) = g ∷ insert_in_last s (h ∷ gs)

-- A new group is begun for an exclusive step, and where there is none.
abbrev pub opened_for : Step → List (List Step) → List (List Step)
opened_for s groups = if s.exclusive || is_empty groups then groups ++ [] ∷ [] else groups

abbrev pub closed_after : Step → List (List Step) → List (List Step)
closed_after s groups = if s.exclusive then groups ++ [] ∷ [] else groups

unfoldable pub add_step : StepOrGroup → List (List Step) → List (List Step)
unfolding insert_in_last
add_step (group steps) groups = groups ++ steps ∷ []
add_step (step s) groups = closed_after s (insert_in_last s (opened_for s groups))

unfoldable pub fold_steps : List StepOrGroup → List (List Step) → List (List Step)
unfolding add_step
fold_steps [] groups = groups
fold_steps (x ∷ xs) groups = fold_steps xs (add_step x groups)

abbrev pub has_steps : List Step → Bool
has_steps steps = not (is_empty steps)

unfoldable pub build_all : List StepOrGroup → List (List Step)
unfolding fold_steps filter
build_all steps = filter has_steps (fold_steps steps [])

insert_in_last-append :
    (s : Step) (gs : List (List Step)) (g : List Step)
    → insert_in_last s (gs ++ g ∷ []) ≡ gs ++ insert_step s g ∷ []
unfolding insert_in_last
insert_in_last-append s [] g = refl
insert_in_last-append s (h ∷ []) g = refl
insert_in_last-append s (h ∷ k ∷ gs) g = ap (λ t. h ∷ t) (insert_in_last-append s (k ∷ gs) g)

filter-append :
    (xs ys : List (List Step))
    → filter has_steps (xs ++ ys) ≡ filter has_steps xs ++ filter has_steps ys
unfolding filter
filter-append [] ys = refl
filter-append (x ∷ xs) ys =
    if_cases {A = List (List Step)}
      (λ r.
        (if has_steps x then x ∷ filter has_steps (xs ++ ys) else filter has_steps (xs ++ ys))
        ≡ r ++ filter has_steps ys)
      (has_steps x) _ _ (λ e. rw e (ap (λ t. x ∷ t) (filter-append xs ys)))
      (λ e. rw e (filter-append xs ys))

fold_steps-append :
    (xs ys : List StepOrGroup) (groups : List (List Step))
    → fold_steps (xs ++ ys) groups ≡ fold_steps ys (fold_steps xs groups)
unfolding fold_steps
fold_steps-append [] ys groups = refl
fold_steps-append (x ∷ xs) ys groups = fold_steps-append xs ys (add_step x groups)

insert_in_last-after :
    (s : Step) (gs hs : List (List Step)) (h : List Step)
    → insert_in_last s (gs ++ h ∷ hs) ≡ gs ++ insert_in_last s (h ∷ hs)
unfolding insert_in_last
insert_in_last-after s [] hs h = refl
insert_in_last-after s (g ∷ []) hs h = refl
insert_in_last-after s (g ∷ k ∷ gs) hs h = ap (λ t. g ∷ t) (insert_in_last-after s (k ∷ gs) hs h)

-- An exclusive step is a group, with a new one begun after it.
add_step-exclusive :
    (s : Step) (groups : List (List Step))
    → s.exclusive ≡ true
    → add_step (step s) groups ≡ groups ++ (s ∷ []) ∷ [] ∷ []
unfolding add_step insert_step
add_step-exclusive s groups e =
    let opens : (s.exclusive || is_empty groups) ≡ true = ground (arith, e) in
    ap (closed_after s) (
      ap (insert_in_last s) (ap (λ b. if b then groups ++ [] ∷ [] else groups) opens)
      ∙ insert_in_last-append s groups [])
    ∙ ap (λ b. if b then (groups ++ (s ∷ []) ∷ []) ++ [] ∷ [] else groups ++ (s ∷ []) ∷ []) e
    ∙ append_assoc groups ((s ∷ []) ∷ []) ([] ∷ [])

-- Any other step joins the last group.
add_step-joins :
    (s : Step) (gs hs : List (List Step)) (h : List Step)
    → s.exclusive ≡ false
    → add_step (step s) (gs ++ h ∷ hs) ≡ gs ++ insert_in_last s (h ∷ hs)
unfolding add_step
add_step-joins s gs hs h e =
    let stays : (s.exclusive || is_empty (gs ++ h ∷ hs)) ≡ false =
      ground (arith, e, not_empty gs) in
    ap (λ g. closed_after s (insert_in_last s g))
      (ap (λ b. if b then (gs ++ h ∷ hs) ++ [] ∷ [] else gs ++ h ∷ hs) stays)
    ∙ ap
        (λ b.
          if b then insert_in_last s (gs ++ h ∷ hs) ++ [] ∷ [] else insert_in_last s (gs ++ h ∷ hs))
        e
    ∙ insert_in_last-after s gs hs h
  where
    not_empty : (gs : List (List Step)) → is_empty (gs ++ h ∷ hs) ≡ false
    not_empty [] = refl
    not_empty (g ∷ gs) = refl

-- Groups before the last do not matter.
add_step-after :
    (x : StepOrGroup) (gs hs : List (List Step)) (h : List Step)
    → add_step x (gs ++ h ∷ hs) ≡ gs ++ add_step x (h ∷ hs)
unfolding add_step
add_step-after (group steps) gs hs h = append_assoc gs (h ∷ hs) (steps ∷ [])
add_step-after (step s) gs hs h = elim (Bool-cases s.exclusive) [
  | inl e ↦
      add_step-exclusive s (gs ++ h ∷ hs) e
      ∙ append_assoc gs (h ∷ hs) ((s ∷ []) ∷ [] ∷ [])
      ∙ ap (λ t. gs ++ t) (sym (add_step-exclusive s (h ∷ hs) e))
  | inr e ↦ add_step-joins s gs hs h e ∙ ap (λ t. gs ++ t) (sym (add_step-joins s [] hs h e))
]

add_step-cons :
    (x : StepOrGroup) (h : List Step) (hs : List (List Step))
    → (k : List Step) × (ks : List (List Step)) × (add_step x (h ∷ hs) ≡ k ∷ ks)
unfolding add_step insert_in_last
add_step-cons (group steps) h hs = (h, hs ++ steps ∷ [], refl)
add_step-cons (step s) h hs = elim (Bool-cases s.exclusive) [
  | inl e ↦ (h, hs ++ (s ∷ []) ∷ [] ∷ [], add_step-exclusive s (h ∷ hs) e)
  | inr e ↦ inserted hs (add_step-joins s [] hs h e)
]
  where
    inserted :
        (hs : List (List Step))
        → add_step (step s) (h ∷ hs) ≡ insert_in_last s (h ∷ hs)
        → (k : List Step) × (ks : List (List Step)) × (add_step (step s) (h ∷ hs) ≡ k ∷ ks)
    inserted [] e = (insert_step s h, [], e)
    inserted (k ∷ ks) e = (h, insert_in_last s (k ∷ ks), e)

fold_steps-after :
    (xs : List StepOrGroup) (gs hs : List (List Step)) (h : List Step)
    → fold_steps xs (gs ++ h ∷ hs) ≡ gs ++ fold_steps xs (h ∷ hs)
unfolding fold_steps
fold_steps-after [] gs hs h = refl
fold_steps-after (x ∷ xs) gs hs h =
    let (k, ks, e) = add_step-cons x h hs in
    ap (fold_steps xs) (add_step-after x gs hs h ∙ ap (λ t. gs ++ t) e)
    ∙ fold_steps-after xs gs ks k
    ∙ ap (λ t. gs ++ fold_steps xs t) (sym e)

add_step-start :
    (s : Step) → s.exclusive ≡ false → add_step (step s) ([] ∷ []) ≡ add_step (step s) []
unfolding add_step
add_step-start s e =
    ap (λ b. closed_after s (insert_in_last s (if b || false then [] ∷ [] ∷ [] else [] ∷ []))) e
    ∙ sym (ap (λ b. closed_after s (insert_in_last s (if b || true then [] ∷ [] else []))) e)

-- An empty group at the start is not kept.
build_all-opened :
    (ys : List StepOrGroup) → filter has_steps (fold_steps ys ([] ∷ [])) ≡ build_all ys
unfolding build_all fold_steps add_step filter
build_all-opened [] = refl
build_all-opened (group g ∷ ys) = ap (filter has_steps) (fold_steps-after ys ([] ∷ []) [] g)
build_all-opened (step s ∷ ys) = elim (Bool-cases s.exclusive) [
  | inl e ↦
      ap (λ g. filter has_steps (fold_steps ys g)) (add_step-exclusive s ([] ∷ []) e)
      ∙ ap (filter has_steps) (fold_steps-after ys ([] ∷ []) ([] ∷ []) (s ∷ []))
      ∙ ap (λ g. filter has_steps (fold_steps ys g)) (sym (add_step-exclusive s [] e))
  | inr e ↦ ap (λ g. filter has_steps (fold_steps ys g)) (add_step-start s e)
]

-- An exclusive step is a group of its own, between the groups of the steps before it and those of the steps
-- after it, which are the groups that those steps have by themselves.
pub build_all-exclusive :
    (xs ys : List StepOrGroup) (s : Step)
    → s.exclusive ≡ true
    → build_all (xs ++ step s ∷ ys) ≡ build_all xs ++ (s ∷ []) ∷ build_all ys
unfolding build_all fold_steps filter
build_all-exclusive xs ys s e =
    let before = fold_steps xs [] in
    ap (filter has_steps) (
      fold_steps-append xs (step s ∷ ys) []
      ∙ ap (fold_steps ys)
          (add_step-exclusive s before e ∙ sym (append_assoc before ((s ∷ []) ∷ []) ([] ∷ [])))
      ∙ fold_steps-after ys (before ++ (s ∷ []) ∷ []) [] []
      ∙ append_assoc before ((s ∷ []) ∷ []) (fold_steps ys ([] ∷ [])))
    ∙ filter-append before ((s ∷ []) ∷ fold_steps ys ([] ∷ []))
    ∙ ap (λ t. filter has_steps before ++ (s ∷ []) ∷ t) (build_all-opened ys)

has_steps-insert_step : (s : Step) (g : List Step) → has_steps (insert_step s g) ≡ true
unfolding insert_step
has_steps-insert_step s [] = refl
has_steps-insert_step s (t ∷ ts) =
    if_cases {A = List Step} (λ r. has_steps r ≡ true) (bytes_eq t.name s.name) (s ∷ ts)
      (t ∷ insert_step s ts) (λ _. refl) (λ _. refl)

-- Where the last step is not exclusive and follows a group, it is put among the steps of that group, in the
-- place of a step of its name where the group has one.
pub build_all-joins_group :
    (xs : List StepOrGroup) (g : List Step) (s : Step)
    → s.exclusive ≡ false
    → build_all (xs ++ group g ∷ step s ∷ []) ≡ build_all xs ++ insert_step s g ∷ []
unfolding build_all fold_steps add_step filter insert_in_last
build_all-joins_group xs g s e =
    let before = fold_steps xs [] in
    ap (filter has_steps)
      (fold_steps-append xs (group g ∷ step s ∷ []) [] ∙ add_step-joins s before [] g e)
    ∙ filter-append before (insert_step s g ∷ [])
    ∙ ap (λ b. filter has_steps before ++ (if b then insert_step s g ∷ [] else []))
        (has_steps-insert_step s g)
