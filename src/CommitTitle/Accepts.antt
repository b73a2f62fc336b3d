-- ===== src/CommitTitle/Accepts.antt =====
-- src/cli/util/check_conventional_commit.rs: every title of the grammar is accepted.
use hk.Prelude.{
  ℕ, zero, suc, ◌≡◌, refl, ap, sym, ◌∙◌, false, Option, none, some, List, [], ◌∷◌, ◌++◌, arith,
  append_assoc, append-nil, replicate, Bytes, contains_byte, is_empty, if_cases,
}
use hk.Fixers.Suffix.{
  last, ends_with, trim_step, trim_end, last-append_byte, init-append_byte, trim_end_self,
}
use hk.CommitTitle.{
  Verdict, accepted, colon, open_parenthesis, close_parenthesis, is_bang, is_generated, split_at,
  scope_error, description_verdict, prefix_verdict, parse_commit_title,
}
use hk.CommitTitle.Grammar.{Title, scope_text, printed, IsScope, IsTitle}

-- The parts of a title stay apart when it is printed: no colon before the one that ends the prefix, no
-- parenthesis in the type, and no exclamation mark at its end.
abbrev pub IsApart : Title → Type 0
IsApart t =
    (is_empty t.commit_type ≡ false)
    × ((contains_byte t.commit_type colon ≡ false)
        × ((contains_byte t.commit_type open_parenthesis ≡ false)
            × ((contains_byte (scope_text t.scope) colon ≡ false)
                × ((c : ℕ) → last t.commit_type ≡ some c → is_bang c ≡ false))))

split_at-append :
    (b : ℕ) (s r : Bytes) → contains_byte s b ≡ false → split_at b (s ++ b ∷ r) ≡ (s, some r)
unfolding split_at contains_byte
split_at-append b [] r h = ground arith
split_at-append b (c ∷ s) r h = ground (arith, split_at-append b s r)

split_at-without : (b : ℕ) (s : Bytes) → contains_byte s b ≡ false → split_at b s ≡ (s, none)
unfolding split_at contains_byte
split_at-without b [] h = refl
split_at-without b (c ∷ s) h = ground (arith, split_at-without b s)

contains_byte-append :
    (b : ℕ) (s t : Bytes)
    → contains_byte s b ≡ false
    → contains_byte t b ≡ false
    → contains_byte (s ++ t) b ≡ false
unfolding contains_byte
contains_byte-append b [] t h k = k
contains_byte-append b (c ∷ s) t h k = ground (arith, contains_byte-append b s t)

contains_byte-replicate : (n : ℕ) → contains_byte (replicate n 33) colon ≡ false
unfolding contains_byte
contains_byte-replicate zero = refl
contains_byte-replicate (suc n) = contains_byte-replicate n

trim_end-replicate : (n : ℕ) → trim_end is_bang (replicate n 33) ≡ []
unfolding trim_end
trim_end-replicate zero = refl
trim_end-replicate (suc n) = ap (trim_step is_bang 33) (trim_end-replicate n)

trim_end-append-replicate :
    (s : Bytes) (n : ℕ) → trim_end is_bang (s ++ replicate n 33) ≡ trim_end is_bang s
unfolding trim_end
trim_end-append-replicate [] n = trim_end-replicate n
trim_end-append-replicate (c ∷ s) n = ap (trim_step is_bang c) (trim_end-append-replicate s n)

last-scoped : (s inner : Bytes) → last (s ++ scope_text (some inner)) ≡ some close_parenthesis
last-scoped s inner =
    ap last (sym (append_assoc s (open_parenthesis ∷ inner) (close_parenthesis ∷ [])))
    ∙ last-append_byte close_parenthesis (s ++ open_parenthesis ∷ inner)

-- What the title's prefix is cut into.
trimmed-prefix :
    (s : Bytes) (scope : Option Bytes) (n : ℕ)
    → ((c : ℕ) → last s ≡ some c → is_bang c ≡ false)
    → trim_end is_bang (s ++ (scope_text scope ++ replicate n 33)) ≡ s ++ scope_text scope
trimmed-prefix s scope n h =
    ap (trim_end is_bang) (sym (append_assoc s (scope_text scope) (replicate n 33)))
    ∙ trim_end-append-replicate (s ++ scope_text scope) n
    ∙ trim_end_self is_bang (s ++ scope_text scope) (not_bang scope)
  where
    not_bang :
        (scope : Option Bytes) (c : ℕ) → last (s ++ scope_text scope) ≡ some c → is_bang c ≡ false
    not_bang none c e = h c (ap last (sym (append-nil s)) ∙ e)
    not_bang (some inner) c e = ground (arith, sym (last-scoped s inner) ∙ e)

abbrev scope_rest : Option Bytes → Option Bytes
scope_rest none = none
scope_rest (some inner) = some (inner ++ close_parenthesis ∷ [])

split_at-scope :
    (s : Bytes) (scope : Option Bytes)
    → contains_byte s open_parenthesis ≡ false
    → split_at open_parenthesis (s ++ scope_text scope) ≡ (s, scope_rest scope)
split_at-scope s none h =
    ap (split_at open_parenthesis) (append-nil s) ∙ split_at-without open_parenthesis s h
split_at-scope s (some inner) h =
    split_at-append open_parenthesis s (inner ++ close_parenthesis ∷ []) h

scope_error-scope_rest :
    (scope : Option Bytes) → IsScope scope → scope_error (scope_rest scope) ≡ none
unfolding scope_error ends_with
scope_error-scope_rest none h = refl
scope_error-scope_rest (some inner) (a, (b, c)) = ground (
  arith,
  last-append_byte close_parenthesis inner,
  init-append_byte close_parenthesis inner,
  a,
  b,
  c,
)

abbrev prefix_text : Title → Bytes
prefix_text t = t.commit_type ++ (scope_text t.scope ++ replicate t.bangs 33)

prefix_text_filled : (t : Title) → is_empty t.commit_type ≡ false → is_empty (prefix_text t) ≡ false
prefix_text_filled t h = go t.commit_type h
  where
    go :
        (s : Bytes)
        → is_empty s ≡ false
        → is_empty (s ++ (scope_text t.scope ++ replicate t.bangs 33)) ≡ false
    go [] h = absurd (cc)
    go (c ∷ s) h = refl

description_verdict-filled :
    (d : Bytes) → is_empty d ≡ false → description_verdict (some (32 ∷ d)) ≡ accepted
unfolding description_verdict
description_verdict-filled d h = rw h refl

prefix_verdict-accepted :
    (title : Bytes) (allowed_types : List Bytes) (t : Title)
    → IsTitle allowed_types t
    → IsApart t
    → prefix_verdict title allowed_types (prefix_text t) (some (32 ∷ t.description)) ≡ accepted
unfolding prefix_verdict
prefix_verdict-accepted title allowed_types t (allowed, (filled, scoped))
      (typed, (_, (no_open, (_, no_bang)))) =
    let cut : split_at open_parenthesis (trim_end is_bang (prefix_text t))
        ≡ (t.commit_type, scope_rest t.scope) =
      ap (split_at open_parenthesis) (trimmed-prefix t.commit_type t.scope t.bangs no_bang)
      ∙ split_at-scope t.commit_type t.scope no_open in
    rw (prefix_text_filled t typed, cut, allowed, scope_error-scope_rest t.scope scoped)
      (description_verdict-filled t.description filled)

-- A printed `Title` is accepted where its type is allowed, its scope is none or one that is not empty and
-- has no parentheses, its description is not empty, its type is not empty, has no opening parenthesis and
-- does not end in an exclamation mark, and neither its type nor its scope has a colon.
pub parse_commit_title-printed :
    (allowed_types : List Bytes) (t : Title)
    → IsTitle allowed_types t
    → IsApart t
    → parse_commit_title (printed t) allowed_types ≡ accepted
unfolding parse_commit_title
parse_commit_title-printed allowed_types t ok apart =
    if_cases {A = Verdict} (λ v. v ≡ accepted) (is_generated (printed t)) accepted _ (λ _. refl)
      λ _.
        let cut : split_at colon (printed t) ≡ (prefix_text t, some (32 ∷ t.description)) =
          split_at-append colon (prefix_text t) (32 ∷ t.description) (no_colon apart) in
        ap (λ (r : Bytes × Option Bytes). prefix_verdict (printed t) allowed_types r.0 r.1) cut
        ∙ prefix_verdict-accepted (printed t) allowed_types t ok apart
  where
    no_colon : IsApart t → contains_byte (prefix_text t) colon ≡ false
    no_colon (_, (a, (_, (b, _)))) =
        contains_byte-append colon t.commit_type (scope_text t.scope ++ replicate t.bangs 33) a (
          contains_byte-append colon (scope_text t.scope) (replicate t.bangs 33) b
            (contains_byte-replicate t.bangs))
