-- ===== src/Patches/Inside.antt =====
-- src/step/diff.rs, `checked_path`: where the paths of a plan may lead.
use hk.Prelude.{
  ℕ, ◌≡◌, refl, ap, subst, inl, inr, Bool, true, false, ◌&&◌, ◌||◌, some, List, [], ◌∷◌, ◌++◌,
  arith, Bytes, split_on, take_until, any, any-append, filter, ◌==◌, Bool-cases,
}
use hk.Fixers.Suffix.{trim_end}
use hk.Patches.{
  Component, normal, cur_dir, other, is_dot_or_space, is_visible, is_dot_git, leaves, names_dot_git,
  Env, component_text, is_git_component,
}
use hk.Patches.Plan.{Change, Disk, plan}
use hk.Patches.Planned.{IsAccepted, AllAccepted, plan-IsPlan}

-- Dots and spaces, which some file systems drop from the end of a name.
abbrev pub is_tail : Bytes → Bool
is_tail [] = true
is_tail (c ∷ s) = (c == 46 || c == 32) && is_tail s

-- `.git` in any case, and a tail.
abbrev pub is_git_name : Bytes → Bool
is_git_name (d ∷ g ∷ i ∷ t ∷ s) =
    d == 46
    && ((g == 103 || g == 71) && ((i == 105 || i == 73) && ((t == 116 || t == 84) && is_tail s)))
is_git_name (d ∷ g ∷ i ∷ []) = false
is_git_name (d ∷ g ∷ []) = false
is_git_name (d ∷ []) = false
is_git_name [] = false

-- A component that stays under the directory and names no git directory.
pub data Inside : Component → Type 0 where
  here : Inside cur_dir
  below : (t : Bytes) → is_git_name t ≡ false → Inside (normal t)

filter-tail : (s : Bytes) → is_tail s ≡ true → filter is_visible s ≡ s
unfolding filter
filter-tail [] h = refl
filter-tail (c ∷ s) h =
    let k : is_visible c ≡ true = ground (arith, h) in
    rw k (ap (λ x. c ∷ x) (filter-tail s (ground (arith, h))))

take_until-tail : (s : Bytes) → is_tail s ≡ true → take_until 58 s ≡ s
unfolding take_until
take_until-tail [] h = refl
take_until-tail (c ∷ s) h = ground (arith, h, take_until-tail s (ground (arith, h)))

split_on-tail : (s : Bytes) → is_tail s ≡ true → split_on 92 s ≡ s ∷ []
unfolding split_on
split_on-tail [] h = refl
split_on-tail (c ∷ s) h = ground (arith, h, split_on-tail s (ground (arith, h)))

trim_end-tail : (s : Bytes) → is_tail s ≡ true → trim_end is_dot_or_space s ≡ []
unfolding trim_end
trim_end-tail [] h = refl
trim_end-tail (c ∷ s) h = ground (arith, h, trim_end-tail s (ground (arith, h)))

ruleset tails = (split_on-tail, filter-tail, take_until-tail, trim_end-tail)

abbrev cased : Bool → ℕ → ℕ → ℕ
cased true lower upper = upper
cased false lower upper = lower

is_dot_git-cased :
    (x y z : Bool) (s : Bytes)
    → is_tail s ≡ true
    → is_dot_git (46 ∷ cased x 103 71 ∷ cased y 105 73 ∷ cased z 116 84 ∷ s) ≡ true
unfolding is_dot_git filter take_until split_on trim_end
is_dot_git-cased true true true s h = simp tails
is_dot_git-cased true true false s h = simp tails
is_dot_git-cased true false true s h = simp tails
is_dot_git-cased true false false s h = simp tails
is_dot_git-cased false true true s h = simp tails
is_dot_git-cased false true false s h = simp tails
is_dot_git-cased false false true s h = simp tails
is_dot_git-cased false false false s h = simp tails

-- The letters of `.git`, of any case, before a tail.
is_dot_git-is_git_name : (t : Bytes) → is_git_name t ≡ true → is_dot_git t ≡ true
is_dot_git-is_git_name (d ∷ g ∷ i ∷ t ∷ s) h =
    let (e, h1) = both (d == 46) _ h in
    let (gs, h2) = both (g == 103 || g == 71) _ h1 in
    let (is, h3) = both (i == 105 || i == 73) _ h2 in
    let (ts, tail) = both (t == 116 || t == 84) _ h3 in
    let (x, a) = cased_of g 103 71 gs in
    let (y, b) = cased_of i 105 73 is in
    let (z, c) = cased_of t 116 84 ts in rw (eq_of e, a, b, c) (is_dot_git-cased x y z s tail)
  where
    both : (p q : Bool) → (p && q) ≡ true → (p ≡ true) × (q ≡ true)
    both true q k = (refl, k)
    both false q k = absurd (cc)

    eq_of : {m n : ℕ} → (m == n) ≡ true → m ≡ n
    eq_of k = ground (arith, k)

    cased_of : (c l u : ℕ) → (c == l || c == u) ≡ true → (x : Bool) × (c ≡ cased x l u)
    cased_of c l u k = elim (Bool-cases (c == l)) [
      | inl e ↦ (false, ground (arith, e))
      | inr e ↦ (true, ground (arith, k, e))
    ]
is_dot_git-is_git_name (d ∷ g ∷ i ∷ []) h = absurd (cc)
is_dot_git-is_git_name (d ∷ g ∷ []) h = absurd (cc)
is_dot_git-is_git_name (d ∷ []) h = absurd (cc)
is_dot_git-is_git_name [] h = absurd (cc)

component :
    (us vs : List Component) (d : Component)
    → any leaves (us ++ d ∷ vs) ≡ false
    → names_dot_git (us ++ d ∷ vs) ≡ false
    → (leaves d ≡ false) × (is_dot_git (component_text d) ≡ false)
unfolding any names_dot_git
component us vs d a b = (
  ground (arith, a, any-append leaves us (d ∷ vs)),
  ground (arith, b, any-append is_git_component us (d ∷ vs)),
)

change-IsAccepted :
    {P : Type 0} (env : Env P) (disk : Disk) (xs ys : List Change) (c : Change)
    → AllAccepted env disk (xs ++ c ∷ ys)
    → IsAccepted env disk c.path
change-IsAccepted env disk [] ys c (a, rest) = a
change-IsAccepted env disk (x ∷ xs) ys c (a, rest) = change-IsAccepted env disk xs ys c rest

component-Inside :
    (us vs : List Component) (d : Component)
    → (any leaves (us ++ d ∷ vs) ≡ false) × (names_dot_git (us ++ d ∷ vs) ≡ false)
    → Inside d
component-Inside us vs d (a, b) = inside d (component us vs d a b)
  where
    inside :
        (d : Component) → (leaves d ≡ false) × (is_dot_git (component_text d) ≡ false) → Inside d
    inside cur_dir h = here
    inside (other t) (a, b) = absurd (cc)
    inside (normal t) (a, b) = elim (Bool-cases (is_git_name t)) [
      | inl e ↦ absurd (cc (is_dot_git-is_git_name t e, b))
      | inr e ↦ below t e
    ]

-- Every component of the path of every change that a plan has is the current directory or a name, and no
-- such name is `.git`, in whatever case, and with whatever dots and spaces after it.
pub plan-Inside :
    {P : Type 0} (env : Env P) (disk : Disk) (diff : Bytes) (strip : ℕ) (xs ys : List Change)
    (c : Change) (us vs : List Component) (d : Component)
    → plan env disk diff strip ≡ some (xs ++ c ∷ ys)
    → c.path ≡ us ++ d ∷ vs
    → Inside d
plan-Inside env disk diff strip xs ys c us vs d h e = component-Inside us vs d (
    subst (IsAccepted env disk) e (
      change-IsAccepted env disk xs ys c
        (plan-IsPlan env disk diff strip (xs ++ c ∷ ys) h).accepted))
