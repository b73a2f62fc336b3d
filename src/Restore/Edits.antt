-- ===== src/Restore/Edits.antt =====
-- src/git.rs, `resolve_restore_text` and `merge_step_change`: the stashed edits that are kept.
use hk.Prelude.{
  ◌≡◌, refl, ap, ap₂, sym, ◌∙◌, ◌⊎◌, inl, inr, Bool, true, false, Option, none, some, List, [], ◌∷◌,
  ◌++◌, arith, append-nil, Bytes, newline, bytes_eq, bytes_eq→eq, split_inclusive, concat, length,
  strip_prefix, length-append, if_cases, Bool-cases,
}
use hk.Fixers.Suffix.{ends_with, trim_end, ends_with-append_byte}
use hk.Merge.{Hunk, fixer, worktree, diff_hunks, hunks_overlap, three_way_merge_hunks}
use hk.Merge.Hunks.{patched, InOrder}
use hk.Merge.Choice.{of_source}
use hk.Merge.Verdict.{merge-keeps_worktree, merge-keeps_both, merge-one_side}
use hk.Restore.{
  tail_of, append_tail, is_newline, is_newline_after, newline_only_change, keep_newline, adjust,
  prefer_fixer, resolve_restore_text, StepChange, not_text, same_lines, write_merged,
  merge_step_change,
}
use hk.Restore.Text.{
  tail_of_cases, tail_of-append, tail_of-append_newline, is_newline_after-append,
  trim_end-append_byte, trim_end-unended, strip_prefix-tail_of,
}

-- The result from what `combine` gives.
abbrev finish : Bytes → Bytes → Bytes → Option Bytes → Option (Bytes × Bool)
finish i w f none = none
finish i w f (some merged) = some (
  prefer_fixer (some i) (some w) (some f) (adjust (some i) (some w) merged),
  newline_only_change (some i) (some w),
)

resolve-finish :
    (base i w f : Bytes)
    → resolve_restore_text base (some i) (some w) (some f)
      ≡ finish i w f (append_tail f (tail_of i w) (three_way_merge_hunks i (some f) (some w)))
unfolding resolve_restore_text
resolve-finish base i w f =
    go (append_tail f (tail_of i w) (three_way_merge_hunks i (some f) (some w)))
  where
    go :
        (o : Option Bytes)
        → elim o [
          | none ↦ none
          | some merged ↦ some (
            prefer_fixer (some i) (some w) (some f) (adjust (some i) (some w) merged),
            newline_only_change (some i) (some w),
          )
        ]
          ≡ finish i w f o
    go none = refl
    go (some merged) = refl

finish-edited :
    (i w f merged : Bytes)
    → newline_only_change (some i) (some w) ≡ false
    → (bytes_eq w i ≡ true → merged ≡ f)
    → finish i w f (some merged) ≡ some (merged, false)
unfolding adjust prefer_fixer
finish-edited i w f merged n same = elim (Bool-cases (bytes_eq w i)) [
  | inl e ↦ rw (n, e) (ap (λ m. some (m, false)) (sym (same e)))
  | inr e ↦ rw (n, e) refl
]

-- The hunks that a merge has applied, with all of the worktree's.
abbrev pub WorkKept : Bytes → Bytes → Bytes → Type 0
WorkKept i w merged =
    (hs : List Hunk) × (merged ≡ concat (patched 0 (split_inclusive i) hs))
    × InOrder 0 0 (length (split_inclusive i)) hs
    × (of_source worktree hs ≡ diff_hunks i w worktree)

merge-WorkKept :
    (i w f : Bytes)
    → (merged : Bytes) × (three_way_merge_hunks i (some f) (some w) ≡ some merged)
      × WorkKept i w merged
merge-WorkKept i w f =
    let (hs, e, o, k) = merge-keeps_worktree i f w in
    (concat (patched 0 (split_inclusive i) hs), e, (hs, refl, o, k))

nil_of_append : (i tail : Bytes) → i ++ tail ≡ i → tail ≡ []
nil_of_append i [] h = refl
nil_of_append i (c ∷ tail) h = absurd (omega (arith, ap length h, length-append i (c ∷ tail)))

newline_only_change-init :
    (i w : Bytes) → i ≡ w ++ newline ∷ [] → newline_only_change (some i) (some w) ≡ true
unfolding newline_only_change
newline_only_change-init i w h =
    let e : is_newline_after w i ≡ true = ap (is_newline_after w) h ∙ is_newline_after-append w in
    ground (arith, e)

tail_of-ne-none : (i w : Bytes) → w ≡ i → tail_of i w ≡ none → ⊥
tail_of-ne-none i w h e =
    let k : tail_of i w ≡ some [] = ap (tail_of i) (h ∙ sym (append-nil i)) ∙ tail_of-append i [] in
    absurd (cc)

-- Unless index and worktree differ only in a final newline, the result has every change of the
-- worktree. If the worktree is the index and text after it, perhaps none, the result is what the steps
-- left and that text; if it does not start with the index, the result is the index with hunks applied among which
-- the worktree's are all of them.
pub resolve-keeps_work :
    (base i w f : Bytes)
    → newline_only_change (some i) (some w) ≡ false
    → ((tail : Bytes) × (w ≡ i ++ tail)
        × (resolve_restore_text base (some i) (some w) (some f) ≡ some (f ++ tail, false)))
      ⊎ ((strip_prefix i w ≡ none)
          × ((merged : Bytes) × WorkKept i w merged
              × (resolve_restore_text base (some i) (some w) (some f) ≡ some (merged, false))))
resolve-keeps_work base i w f n = elim (tail_of_cases i w) [
  | inl (tail, e, k) ↦ inl (
    tail,
    k,
    resolve-finish base i w f
        ∙ ap (λ t. finish i w f (append_tail f t (three_way_merge_hunks i (some f) (some w)))) e
        ∙ finish-edited i w f (f ++ tail) n
            λ b. ap (λ t. f ++ t) (nil_of_append i tail (sym k ∙ bytes_eq→eq w i b)) ∙ append-nil f,
  )
  | inr (inl (e, k)) ↦ absurd (ground (arith, n, newline_only_change-init i w k))
  | inr (inr e) ↦
      let (merged, m, k) = merge-WorkKept i w f in
      inr (
        strip_prefix-tail_of i w e,
        (
          merged,
          k,
          resolve-finish base i w f
              ∙ ap₂ (λ t r. finish i w f (append_tail f t r)) e m
              ∙ finish-edited i w f merged n
                  λ b. absurd (tail_of-ne-none i w (bytes_eq→eq w i b) e),
        ),
      )
]

keep_newline_self : (i w : Bytes) → keep_newline i w w ≡ w
unfolding keep_newline
keep_newline_self i w = ground (arith, trim_end-unended w)

finish_self :
    (i w : Bytes) → finish i w i (some w) ≡ some (w, newline_only_change (some i) (some w))
unfolding adjust prefer_fixer
finish_self i w =
    let kept : adjust (some i) (some w) w ≡ w = ground (arith, keep_newline_self i w) in
    let chosen : prefer_fixer (some i) (some w) (some i) w ≡ w = ground (arith, bytes_eq→eq w i) in
    ap
      (λ m. some (prefer_fixer (some i) (some w) (some i) m, newline_only_change (some i) (some w)))
      kept
    ∙ ap (λ m. some (m, newline_only_change (some i) (some w))) chosen

-- Where only a final newline was changed, the fixer's text is no longer asked for.
finish-newline :
    (i w f merged kept : Bytes)
    → newline_only_change (some i) (some w) ≡ true
    → keep_newline i w merged ≡ kept
    → finish i w f (some merged) ≡ some (kept, true)
unfolding adjust prefer_fixer
finish-newline i w f merged kept n k = rw (n, k) refl

keep_newline-less :
    (i w : Bytes) → i ≡ w ++ newline ∷ [] → ends_with w newline ≡ false → keep_newline i w i ≡ w
unfolding keep_newline
keep_newline-less i w k h =
    let e : ends_with i newline ≡ true =
      ap (λ t. ends_with t newline) k ∙ ends_with-append_byte w newline in
    rw (e, h) (ap (trim_end is_newline) k ∙ trim_end-append_byte w ∙ trim_end-unended w h)

keep_newline-both :
    (i w merged : Bytes)
    → ends_with i newline ≡ true
    → ends_with w newline ≡ true
    → keep_newline i w merged ≡ merged
unfolding keep_newline
keep_newline-both i w merged a b = rw (a, b) refl

-- Where the steps left what was staged, the worktree gets back its stashed text, unless that is the
-- staged text less one of several final newlines.
pub resolve-unchanged :
    (base i w : Bytes)
    → (is_newline_after w i ≡ true → ends_with w newline ≡ false)
    → resolve_restore_text base (some i) (some w) (some i)
      ≡ some (w, newline_only_change (some i) (some w))
resolve-unchanged base i w h = elim (tail_of_cases i w) [
  | inl (tail, e, k) ↦
      resolve-finish base i w i
      ∙ ap (λ t. finish i w i (append_tail i t (three_way_merge_hunks i (some i) (some w)))) e
      ∙ ap (λ m. finish i w i (some m)) (sym k)
      ∙ finish_self i w
  | inr (inl (e, k)) ↦
      let n = newline_only_change-init i w k in
      let unended = h (ap (is_newline_after w) k ∙ is_newline_after-append w) in
      resolve-finish base i w i
      ∙ ap (λ t. finish i w i (append_tail i t (three_way_merge_hunks i (some i) (some w)))) e
      ∙ ap (λ m. finish i w i (some m)) (append-nil i)
      ∙ finish-newline i w i i w n (keep_newline-less i w k unended)
      ∙ ap (λ b. some (w, b)) (sym n)
  | inr (inr e) ↦
      resolve-finish base i w i
      ∙ ap₂ (λ t m. finish i w i (append_tail i t m)) e (merge-one_side i w).0
      ∙ finish_self i w
]

-- A stashed text that is the staged text less one of several final newlines is not restored: the
-- worktree gets what the steps left, also where that is the staged text.
pub resolve-loses_newline :
    (base s f : Bytes)
    → ends_with s newline ≡ true
    → resolve_restore_text base (some (s ++ newline ∷ [])) (some s) (some f) ≡ some (f, true)
resolve-loses_newline base s f h =
    let i = s ++ newline ∷ [] in
    resolve-finish base i s f
    ∙ ap (λ t. finish i s f (append_tail f t (three_way_merge_hunks i (some f) (some s))))
        (tail_of-append_newline s)
    ∙ ap (λ m. finish i s f (some m)) (append-nil f)
    ∙ finish-newline i s f f f (newline_only_change-init i s refl)
        (keep_newline-both i s f (ends_with-append_byte s newline) h)

-- What becomes of the three versions of a file, of which any may be no text. Where both changes apply, the
-- merged text is the index with exactly their hunks applied, and it is written unless writing fails.
abbrev pub Merged : (index stashed step : Option Bytes) → Bool → StepChange → Type 0
Merged (some index) (some stashed) (some step) writes r =
    ((hunks_overlap index step stashed ≡ true) × (r ≡ same_lines))
    ⊎ ((hunks_overlap index step stashed ≡ false)
        × ((hs : List Hunk) × (r
              ≡ write_merged writes (some (concat (patched 0 (split_inclusive index) hs))))
            × (of_source fixer hs ≡ diff_hunks index step fixer)
            × (of_source worktree hs ≡ diff_hunks index stashed worktree)))
Merged (some index) (some stashed) none writes r = r ≡ not_text
Merged (some index) none step writes r = r ≡ not_text
Merged none stashed step writes r = r ≡ not_text

-- What `merge_step_change` does with the three versions of a file. Where all are text and no hunk of the
-- step overlaps one of the stashed edits, it does not panic, and the file that it writes, or fails to
-- write, is the index with exactly the hunks of both applied; where some overlap, it leaves the
-- file with the conflict of the same lines; where a version is no text, it leaves it with that conflict.
pub merge_step_change-Merged :
    (index stashed step : Option Bytes) (writes : Bool)
    → Merged index stashed step writes (merge_step_change index stashed step writes)
unfolding merge_step_change
merge_step_change-Merged (some index) (some stashed) (some step) writes =
    if_cases {A = StepChange} (Merged (some index) (some stashed) (some step) writes)
      (hunks_overlap index step stashed) same_lines _ (λ e. inl (e, refl))
      (λ e.
        let (hs, m, p, q) = merge-keeps_both index step stashed e in
        inr (e, (hs, ap (write_merged writes) m, p, q)))
merge_step_change-Merged (some index) (some stashed) none writes = refl
merge_step_change-Merged (some index) none step writes = refl
merge_step_change-Merged none stashed step writes = refl
