-- ===== src/CommitTitle/Grammar.antt =====
-- src/cli/util/check_conventional_commit.rs: the titles that are accepted, as a grammar.
use hk.Prelude.{
  ℕ, suc, ◌≡◌, refl, ap, sym, ◌∙◌, true, false, ◌||◌, not, Option, none, some, List, [], ◌∷◌, ◌++◌,
  arith, append_assoc, append-nil, replicate, Bytes, contains_byte, is_empty, ◌==◌, ==_iff,
  if◌then◌else◌, if_cases,
}
use hk.Fixers.Suffix.{init, ends_with, trim_step, trim_end, ends_with-init}
use hk.CommitTitle.{
  Verdict, accepted, colon, open_parenthesis, close_parenthesis, is_bang, is_generated, cons_piece,
  split_at, check_commit_type, scope_error, description_text, description_verdict, prefix_verdict,
  parse_commit_title,
}

-- A title: `type(scope)!: description`, with any number of exclamation marks.
pub record Title : Type 0 where
  pub commit_type : Bytes
  pub scope : Option Bytes
  pub bangs : ℕ
  pub description : Bytes

abbrev pub scope_text : Option Bytes → Bytes
scope_text none = []
scope_text (some inner) = open_parenthesis ∷ inner ++ close_parenthesis ∷ []

abbrev pub printed : Title → Bytes
printed t =
    (t.commit_type ++ (scope_text t.scope ++ replicate t.bangs 33)) ++ colon ∷ 32 ∷ t.description

-- The scope has no parentheses and is not empty.
abbrev pub IsScope : Option Bytes → Type 0
IsScope none = Unit
IsScope (some inner) =
    (is_empty inner ≡ false)
    × ((contains_byte inner open_parenthesis ≡ false)
        × (contains_byte inner close_parenthesis ≡ false))

abbrev pub IsTitle : List Bytes → Title → Type 0
IsTitle allowed_types t =
    (check_commit_type t.commit_type allowed_types ≡ true)
    × ((is_empty t.description ≡ false) × IsScope t.scope)

-- What `splitn` gives, put together again.
abbrev rejoined : ℕ → Bytes × Option Bytes → Bytes
rejoined b (a, none) = a
rejoined b (a, some r) = a ++ b ∷ r

rejoined-split_at : (b : ℕ) (s : Bytes) → rejoined b (split_at b s) ≡ s
unfolding split_at
rejoined-split_at b [] = refl
rejoined-split_at b (c ∷ s) =
    if_cases {A = Bytes × Option Bytes} (λ r. rejoined b r ≡ c ∷ s) (c == b) ([], some s) _
      (λ e. ap (λ d. d ∷ s) (sym ((==_iff c b).0 e)))
      λ _. rejoined-cons (split_at b s) ∙ ap (λ t. c ∷ t) (rejoined-split_at b s)
  where
    rejoined-cons : (r : Bytes × Option Bytes) → rejoined b (cons_piece c r) ≡ c ∷ rejoined b r
    rejoined-cons (a, none) = refl
    rejoined-cons (a, some r) = refl

-- What `trim_end_matches('!')` takes away.
trim_end-bangs : (s : Bytes) → (n : ℕ) × (trim_end is_bang s ++ replicate n 33 ≡ s)
unfolding trim_end
trim_end-bangs [] = (0, refl)
trim_end-bangs (c ∷ s) = let (n, e) = trim_end-bangs s in step (trim_end is_bang s) n e
  where
    step :
        (r : Bytes) (n : ℕ)
        → r ++ replicate n 33 ≡ s
        → (m : ℕ) × (trim_step is_bang c r ++ replicate m 33 ≡ c ∷ s)
    step [] n e =
        if_cases {A = Bytes} (λ t. (m : ℕ) × (t ++ replicate m 33 ≡ c ∷ s)) (is_bang c) [] (c ∷ [])
          (λ b. (suc n, ap (λ d. d ∷ replicate n 33) (sym ((==_iff c 33).0 b)) ∙ ap (λ t. c ∷ t) e))
          λ _. (n, ap (λ t. c ∷ t) e)
    step (d ∷ r) n e = (n, ap (λ t. c ∷ t) e)

-- What stands for the scope, and the text it is written as.
abbrev ScopeOf : Option Bytes → Type 0
ScopeOf o =
    (s : Option Bytes) × (IsScope s
      × ((a : Bytes) → a ++ scope_text s ≡ rejoined open_parenthesis (a, o)))

scope_error-none : (o : Option Bytes) → scope_error o ≡ none → ScopeOf o
unfolding scope_error
scope_error-none none h = (none, (tt, λ a. append-nil a))
scope_error-none (some scope) h =
    let ends : ends_with scope close_parenthesis ≡ true = ground (arith, h) in
    let filled : is_empty (init scope) ≡ false = ground (arith, h) in
    let no_open : contains_byte (init scope) open_parenthesis ≡ false = ground (arith, h) in
    let no_close : contains_byte (init scope) close_parenthesis ≡ false = ground (arith, h) in
    (
      some (init scope),
      (
        (filled, (no_open, no_close)),
        λ a. ap (λ t. a ++ open_parenthesis ∷ t) (ends_with-init scope close_parenthesis ends),
      ),
    )

description_text-filled :
    (s : Bytes)
    → is_empty (description_text s) ≡ false
    → (d : Bytes) × ((s ≡ 32 ∷ d) × (is_empty d ≡ false))
description_text-filled [] h = absurd (ground (arith, h))
description_text-filled (c ∷ s) h =
    let space : (c == 32) ≡ true = ground (arith, h) in
    (s, (ap (λ d. d ∷ s) ((==_iff c 32).0 space), ground (arith, h)))

description_verdict-accepted :
    (o : Option Bytes)
    → description_verdict o ≡ accepted
    → (d : Bytes) × ((o ≡ some (32 ∷ d)) × (is_empty d ≡ false))
unfolding description_verdict
description_verdict-accepted none h = absurd (cc)
description_verdict-accepted (some s) h =
    let filled : is_empty (description_text s) ≡ false = ground (arith, h) in
    let (d, (e, f)) = description_text-filled s filled in (d, (ap some e, f))

scope_error-not_accepted : (o : Option Bytes) → scope_error o ≡ some accepted → ⊥
unfolding scope_error
scope_error-not_accepted none h = absurd (cc)
scope_error-not_accepted (some scope) h =
    if_cases {A = Option Verdict} (λ r. r ≡ some accepted → ⊥)
      (not (ends_with scope close_parenthesis)) _ _ (λ _ k. absurd (cc))
      (λ _.
        if_cases {A = Option Verdict} (λ r. r ≡ some accepted → ⊥) (is_empty (init scope)) _ _
          (λ _ k. absurd (cc))
          λ _.
            if_cases {A = Option Verdict} (λ r. r ≡ some accepted → ⊥)
              (contains_byte (init scope) open_parenthesis
                || contains_byte (init scope) close_parenthesis)
              _ _ (λ _ k. absurd (cc)) (λ _ k. absurd (cc)))
      h

-- The checks that an accepted title has passed.
record Passed (prefix : Bytes) (description : Option Bytes) (allowed_types : List Bytes)
    : Type 0 where
  allowed :
      check_commit_type (split_at open_parenthesis (trim_end is_bang prefix)).0 allowed_types ≡ true
  scoped : scope_error (split_at open_parenthesis (trim_end is_bang prefix)).1 ≡ none
  described : description_verdict description ≡ accepted

prefix_verdict-Passed :
    (title : Bytes) (allowed_types : List Bytes) (prefix : Bytes) (description : Option Bytes)
    → prefix_verdict title allowed_types prefix description ≡ accepted
    → Passed prefix description allowed_types
unfolding prefix_verdict
prefix_verdict-Passed title allowed_types prefix description h =
    if_cases {A = Verdict} (λ v. v ≡ accepted → Passed prefix description allowed_types)
      (is_empty prefix) _ _ (λ _ k. absurd (cc))
      (λ _.
        if_cases {A = Verdict} (λ v. v ≡ accepted → Passed prefix description allowed_types)
          (not (
            check_commit_type (split_at open_parenthesis (trim_end is_bang prefix)).0
              allowed_types))
          _ _ (λ _ k. absurd (cc))
          (λ c k.
            go (scope_error (split_at open_parenthesis (trim_end is_bang prefix)).1) refl
              (ground (arith, c)) k))
      h
  where
    go :
        (o : Option Verdict)
        → scope_error (split_at open_parenthesis (trim_end is_bang prefix)).1 ≡ o
        → check_commit_type (split_at open_parenthesis (trim_end is_bang prefix)).0 allowed_types
          ≡ true
        → elim o [ some e ↦ e | none ↦ description_verdict description ] ≡ accepted
        → Passed prefix description allowed_types
    go none e c k = record { allowed = c; scoped = e; described = k }
    go (some v) e c k = absurd (
        scope_error-not_accepted (split_at open_parenthesis (trim_end is_bang prefix)).1
          (e ∙ ap some k))

Passed-IsTitle :
    (allowed_types : List Bytes) (prefix : Bytes) (description : Option Bytes)
    → Passed prefix description allowed_types
    → (t : Title) × (IsTitle allowed_types t × (printed t ≡ rejoined colon (prefix, description)))
Passed-IsTitle allowed_types prefix description h =
    let piece = split_at open_parenthesis (trim_end is_bang prefix) in
    let (scope, (ok, text)) = scope_error-none piece.1 h.scoped in
    let (d, (e, filled)) = description_verdict-accepted description h.described in
    let (n, bangs) = trim_end-bangs prefix in
    let whole : piece.0 ++ (scope_text scope ++ replicate n 33) ≡ prefix =
      sym (append_assoc piece.0 (scope_text scope) (replicate n 33))
      ∙ ap (λ t. t ++ replicate n 33)
          (text piece.0 ∙ rejoined-split_at open_parenthesis (trim_end is_bang prefix))
      ∙ bangs in
    (
      record { commit_type = piece.0; scope = scope; bangs = n; description = d },
      (
        (h.allowed, (filled, ok)),
        ap (λ t. t ++ colon ∷ 32 ∷ d) whole ∙ ap (λ o. rejoined colon (prefix, o)) (sym e),
      ),
    )

-- An accepted title that Git did not write is a printed `Title`: a type that is allowed, a scope in
-- one pair of parentheses or none, and a description after a colon and a space.
pub parse_commit_title-IsTitle :
    (title : Bytes) (allowed_types : List Bytes)
    → is_generated title ≡ false
    → parse_commit_title title allowed_types ≡ accepted
    → (t : Title) × (IsTitle allowed_types t × (printed t ≡ title))
unfolding parse_commit_title prefix_verdict
parse_commit_title-IsTitle title allowed_types g h =
    let passed : prefix_verdict title allowed_types (split_at colon title).0
          (split_at colon title).1
        ≡ accepted =
      ap
        (λ b.
          if b
          then accepted
          else prefix_verdict title allowed_types (split_at colon title).0 (split_at colon title).1)
        (sym g)
      ∙ h in
    let (t, (ok, e)) =
      Passed-IsTitle allowed_types (split_at colon title).0 (split_at colon title).1 (
        prefix_verdict-Passed title allowed_types (split_at colon title).0 (split_at colon title).1
          passed) in
    (t, (ok, e ∙ rejoined-split_at colon title))
