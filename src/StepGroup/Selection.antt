-- ===== src/StepGroup/Selection.antt =====
-- src/hook.rs, `get_step_groups`: the groups of the steps that `--step` selects.
use hk.Prelude.{
  ◌≡◌, refl, ap, ◌∙◌, Bool, true, false, ◌||◌, not, List, [], ◌∷◌, ◌++◌, arith, Bytes, bytes_eq,
  any, any-append, filter, is_empty, if◌then◌else◌, if_cases,
}
use hk.StepGroup.Grouping.{
  Step, StepOrGroup, step, group, insert_step, insert_in_last, opened_for, add_step, fold_steps,
  has_steps, build_all,
}

abbrev pub is_selected : List Bytes → Step → Bool
is_selected names s = any (bytes_eq s.name) names

-- A group stays, with the steps of it that are selected.
abbrev pub select_one : List Bytes → StepOrGroup → List StepOrGroup
select_one names (step s) = if is_selected names s then step s ∷ [] else []
select_one names (group steps) = group (filter (is_selected names) steps) ∷ []

unfoldable pub select : List Bytes → List StepOrGroup → List StepOrGroup
unfolding any filter bytes_eq
select names [] = []
select names (x ∷ xs) = select_one names x ++ select names xs

-- The groups of all steps where none is named.
unfoldable pub get_step_groups : List Bytes → List StepOrGroup → List (List Step)
unfolding select build_all
get_step_groups names steps = build_all (if is_empty names then steps else select names steps)

module _ (bad : Step → Bool) where
  abbrev any_bad : List (List Step) → Bool
  any_bad groups = any (any bad) groups

  abbrev is_bad : StepOrGroup → Bool
  is_bad (step s) = bad s
  is_bad (group steps) = any bad steps

  insert_step-any :
      (s : Step) (g : List Step)
      → bad s ≡ false
      → any bad g ≡ false
      → any bad (insert_step s g) ≡ false
  unfolding insert_step any
  insert_step-any s [] b h = ground (arith, b)
  insert_step-any s (t ∷ ts) b h =
      if_cases {A = List Step} (λ r. any bad r ≡ false) (bytes_eq t.name s.name) (s ∷ ts)
        (t ∷ insert_step s ts) (λ _. ground (arith, b, h))
        (λ _. ground (arith, h, insert_step-any s ts b))

  insert_in_last-any :
      (s : Step) (gs : List (List Step))
      → bad s ≡ false
      → any_bad gs ≡ false
      → any_bad (insert_in_last s gs) ≡ false
  unfolding insert_in_last any
  insert_in_last-any s [] b h = refl
  insert_in_last-any s (g ∷ []) b h = ground (arith, insert_step-any s g b, h)
  insert_in_last-any s (g ∷ k ∷ gs) b h = ground (arith, insert_in_last-any s (k ∷ gs) b, h)

  opened-any :
      (t : Bool) (gs : List (List Step))
      → any_bad gs ≡ false
      → any_bad (if t then gs ++ [] ∷ [] else gs) ≡ false
  unfolding any
  opened-any true gs h = any-append (any bad) gs ([] ∷ []) ∙ ground (arith, h)
  opened-any false gs h = h

  add_step-any :
      (x : StepOrGroup) (gs : List (List Step))
      → is_bad x ≡ false
      → any_bad gs ≡ false
      → any_bad (add_step x gs) ≡ false
  unfolding add_step any
  add_step-any (group steps) gs b h = any-append (any bad) gs (steps ∷ []) ∙ ground (arith, b, h)
  add_step-any (step s) gs b h =
      opened-any s.exclusive (insert_in_last s (opened_for s gs))
        (insert_in_last-any s (opened_for s gs) b (opened-any (s.exclusive || is_empty gs) gs h))

  fold_steps-any :
      (xs : List StepOrGroup) (gs : List (List Step))
      → any is_bad xs ≡ false
      → any_bad gs ≡ false
      → any_bad (fold_steps xs gs) ≡ false
  unfolding fold_steps any
  fold_steps-any [] gs b h = h
  fold_steps-any (x ∷ xs) gs b h =
      fold_steps-any xs (add_step x gs) (ground (arith, b))
        (add_step-any x gs (ground (arith, b)) h)

  filter-any : (gs : List (List Step)) → any_bad gs ≡ false → any_bad (filter has_steps gs) ≡ false
  unfolding filter any
  filter-any [] h = refl
  filter-any (g ∷ gs) h = ground (arith, h, filter-any gs)

abbrev pub is_unselected : List Bytes → Step → Bool
is_unselected names s = not (is_selected names s)

filter-selected :
    (names : List Bytes) (steps : List Step)
    → any (is_unselected names) (filter (is_selected names) steps) ≡ false
unfolding filter any
filter-selected names [] = refl
filter-selected names (s ∷ steps) = ground (arith, filter-selected names steps)

select-selected :
    (names : List Bytes) (xs : List StepOrGroup)
    → any (is_bad (is_unselected names)) (select names xs) ≡ false
unfolding select any
select-selected names [] = refl
select-selected names (step s ∷ xs) =
    if_cases {A = List StepOrGroup}
      (λ r. any (is_bad (is_unselected names)) (r ++ select names xs) ≡ false) (is_selected names s)
      (step s ∷ []) [] (λ e. ground (arith, e, select-selected names xs))
      (λ _. select-selected names xs)
select-selected names (group steps ∷ xs) =
    ground (arith, filter-selected names steps, select-selected names xs)

-- Where steps are named, no group has a step that is not one of them.
pub get_step_groups-selected :
    (names : List Bytes) (steps : List StepOrGroup)
    → is_empty names ≡ false
    → any (any (is_unselected names)) (get_step_groups names steps) ≡ false
unfolding get_step_groups build_all any
get_step_groups-selected names steps h =
    filter-any (is_unselected names)
      (fold_steps (if is_empty names then steps else select names steps) [])
      (fold_steps-any (is_unselected names) (if is_empty names then steps else select names steps)
        []
        (ap (λ b. any (is_bad (is_unselected names)) (if b then steps else select names steps)) h
          ∙ select-selected names steps)
        refl)
