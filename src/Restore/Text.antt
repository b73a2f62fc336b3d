-- ===== src/Restore/Text.antt =====
-- src/git.rs, `resolve_restore_text`: how the parts of the difference between index and worktree are
-- told apart.
use hk.Prelude.{
  ◌≡◌, refl, ap, sym, ◌∙◌, ◌⊎◌, inl, inr, true, false, none, some, [], ◌∷◌, ◌++◌, arith, append-nil,
  Bytes, newline, bytes_eq_refl, bytes_eq→eq, strip_prefix, strip_prefix-append,
  append_of_strip_prefix, length, length-append, Bool-cases, Option-cases,
}
use hk.Fixers.Suffix.{
  ends_with-append_byte, init, ends_with, trim_step, trim_end, init-append_byte, ends_with-init,
  trim_end_self,
}
use hk.Restore.{tail_of, is_newline, is_newline_after}

pub strip_prefix_self : (s : Bytes) → strip_prefix s s ≡ some []
strip_prefix_self s = ap (strip_prefix s) (sym (append-nil s)) ∙ strip_prefix-append s []

-- The three readings of `tail_of`.
abbrev pub TailView : Bytes → Bytes → Type 0
TailView i w =
    ((tail : Bytes) × (tail_of i w ≡ some tail) × (w ≡ i ++ tail))
    ⊎ (((tail_of i w ≡ some []) × (i ≡ w ++ newline ∷ [])) ⊎ (tail_of i w ≡ none))

pub tail_of-append : (i tail : Bytes) → tail_of i (i ++ tail) ≡ some tail
unfolding tail_of
tail_of-append i tail = rw (tail_of, strip_prefix-append i tail) refl

tail_of-init :
    (i w : Bytes)
    → strip_prefix i w ≡ none
    → ends_with i newline ≡ true
    → strip_prefix (init i) w ≡ some []
    → (tail_of i w ≡ some []) × (i ≡ w ++ newline ∷ [])
unfolding tail_of
tail_of-init i w a b c =
    let e : w ≡ init i = append_of_strip_prefix (init i) w [] c ∙ append-nil (init i) in
    (
      rw (tail_of, a, b, c) refl,
      sym (ends_with-init i newline b) ∙ ap (λ t. t ++ newline ∷ []) (sym e),
    )

pub tail_of_cases : (i w : Bytes) → TailView i w
unfolding tail_of
tail_of_cases i w = elim (Option-cases (strip_prefix i w)) [
  | inr (tail, e) ↦ inl (tail, rw (tail_of, e) refl, append_of_strip_prefix i w tail e)
  | inl a ↦ elim (Bool-cases (ends_with i newline)) [
    | inr b ↦ inr (inr (rw (tail_of, a, b) refl))
    | inl b ↦ elim (Option-cases (strip_prefix (init i) w)) [
      | inl c ↦ inr (inr (rw (tail_of, a, b, c) refl))
      | inr ([], c) ↦ inr (inl (tail_of-init i w a b c))
      | inr (x ∷ s, c) ↦ inr (inr (rw (tail_of, a, b, c) refl))
    ]
  ]
]

pub is_newline_after-append : (s : Bytes) → is_newline_after s (s ++ newline ∷ []) ≡ true
unfolding is_newline_after
is_newline_after-append s = ground (
  arith,
  length-append s (newline ∷ []),
  ends_with-append_byte s newline,
  init-append_byte newline s,
  bytes_eq_refl s,
)

pub append_of_is_newline_after : (s t : Bytes) → is_newline_after s t ≡ true → t ≡ s ++ newline ∷ []
unfolding is_newline_after
append_of_is_newline_after s t h =
    let e : init t ≡ s = bytes_eq→eq (init t) s (ground arith) in
    sym (ends_with-init t newline (ground arith)) ∙ ap (λ r. r ++ newline ∷ []) e

pub trim_end-append_byte :
    (s : Bytes) → trim_end is_newline (s ++ newline ∷ []) ≡ trim_end is_newline s
unfolding trim_end
trim_end-append_byte [] = refl
trim_end-append_byte (c ∷ s) = ap (trim_step is_newline c) (trim_end-append_byte s)

pub trim_end-unended : (s : Bytes) → ends_with s newline ≡ false → trim_end is_newline s ≡ s
unfolding ends_with
trim_end-unended s h = trim_end_self is_newline s λ c e. ground (arith, e, h)

-- Without a tail the worktree does not start with the index.
pub strip_prefix-tail_of : (i w : Bytes) → tail_of i w ≡ none → strip_prefix i w ≡ none
unfolding tail_of
strip_prefix-tail_of i w h = elim (Option-cases (strip_prefix i w)) [
  | inl e ↦ e
  | inr (tail, e) ↦ let k : tail_of i w ≡ some tail = rw (tail_of, e) refl in absurd (cc)
]

pub tail_of-append_newline : (s : Bytes) → tail_of (s ++ newline ∷ []) s ≡ some []
tail_of-append_newline s = elim (Option-cases (strip_prefix (s ++ newline ∷ []) s)) [
  | inl a ↦
      (tail_of-init (s ++ newline ∷ []) s a (ends_with-append_byte s newline)
        (ap (λ t. strip_prefix t s) (init-append_byte newline s) ∙ strip_prefix_self s)).0
  | inr (tail, e) ↦ absurd (
      omega (
        arith,
        ap length (append_of_strip_prefix (s ++ newline ∷ []) s tail e),
        length-append (s ++ newline ∷ []) tail,
        length-append s (newline ∷ []),
      ))
]
