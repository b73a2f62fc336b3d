-- ===== src/DiffLines/Bodies.antt =====
-- src/step/mod.rs, `diff_lines`: a hunk's body is marked as such, whatever its lines look like.
use hk.Prelude.{
  ℕ, ◌+◌, ◌≡◌, refl, ap, ap₂, ◌∙◌, Bool, true, false, some, List, [], ◌∷◌, ◌++◌, arith, Bytes,
  concat, concat-split_inclusive, split_inclusive, if◌then◌else◌,
}
use hk.DiffLines.{
  Kind, removed, added, remark, context, kind_of, consume, is_inside, or_left, hunk_lengths,
  split_line_ending, advance, mark, diff_lines,
}

-- How many lines of the old and the new file a line of a body stands for.
abbrev pub old_lines : Kind → ℕ
old_lines removed = 1
old_lines added = 0
old_lines remark = 0
old_lines context = 1

abbrev pub new_lines : Kind → ℕ
new_lines removed = 0
new_lines added = 1
new_lines remark = 0
new_lines context = 1

abbrev pub count_old : List Bytes → ℕ
count_old [] = 0
count_old (line ∷ body) = old_lines (kind_of line) + count_old body

abbrev pub count_new : List Bytes → ℕ
count_new [] = 0
count_new (line ∷ body) = new_lines (kind_of line) + count_new body

abbrev is_content : Kind → Bool
is_content remark = false
is_content _ = true

-- Lines without a remark such as `\ No newline at end of file`.
abbrev pub AllContent : List Bytes → Type 0
AllContent [] = Unit
AllContent (line ∷ body) = (is_content (kind_of line) ≡ true) × AllContent body

abbrev pub all_inside : List Bytes → List (Bytes × Bool)
all_inside [] = []
all_inside (line ∷ body) = (line, true) ∷ all_inside body

consumed :
    (k : Kind) (old new : ℕ)
    → is_content k ≡ true
    → (is_inside (old_lines k + old, new_lines k + new) ≡ true)
      × (consume k (old_lines k + old, new_lines k + new) ≡ (old, new))
consumed removed old new h = (ground arith, ap₂ (λ x y. (x, y)) (omega arith) (omega arith))
consumed added old new h = (ground arith, ap₂ (λ x y. (x, y)) (omega arith) (omega arith))
consumed remark old new h = absurd (cc)
consumed context old new h = (ground arith, ap₂ (λ x y. (x, y)) (omega arith) (omega arith))

mark-body :
    (body rest : List Bytes)
    → AllContent body
    → mark (count_old body, count_new body) (body ++ rest) ≡ all_inside body ++ mark (0, 0) rest
unfolding mark advance
mark-body [] rest h = refl
mark-body (line ∷ body) rest (h, hs) =
    let (a, b) = consumed (kind_of line) (count_old body) (count_new body) h in
    let left : ℕ × ℕ = (count_old (line ∷ body), count_new (line ∷ body)) in
    let e : (if is_inside left
          then consume (kind_of line) left
          else or_left (hunk_lengths (split_line_ending line).0) left)
        ≡ (count_old body, count_new body) =
      ap
        (λ t.
          if t
          then consume (kind_of line) left
          else or_left (hunk_lengths (split_line_ending line).0) left)
        a
      ∙ b in
    ap₂ (λ t r. (line, t) ∷ r) a (ap (λ l. mark l (body ++ rest)) e ∙ mark-body body rest hs)

-- After a hunk's header, the lines that its two counts take in are marked as inside, also where they look
-- like the header of a file, and the line after them is read as outside again. The body is any lines
-- of which none is a remark that starts with a backslash.
pub mark-hunk :
    (header : Bytes) (body rest : List Bytes)
    → AllContent body
    → hunk_lengths (split_line_ending header).0 ≡ some (count_old body, count_new body)
    → mark (0, 0) (header ∷ body ++ rest) ≡ (header, false) ∷ all_inside body ++ mark (0, 0) rest
unfolding mark advance
mark-hunk header body rest c h =
    ap (λ r. (header, false) ∷ r)
      (ap (λ o. mark (or_left o (0, 0)) (body ++ rest)) h ∙ mark-body body rest c)

abbrev pub lines_of : List (Bytes × Bool) → List Bytes
lines_of [] = []
lines_of ((line, inside) ∷ marked) = line ∷ lines_of marked

lines_of-mark : (left : ℕ × ℕ) (lines : List Bytes) → lines_of (mark left lines) ≡ lines
unfolding mark
lines_of-mark left [] = refl
lines_of-mark left (line ∷ lines) = ap (λ t. line ∷ t) (lines_of-mark (advance left line) lines)

-- The lines of `diff_lines`, joined, are the diff.
pub concat-diff_lines : (diff : Bytes) → concat (lines_of (diff_lines diff)) ≡ diff
unfolding diff_lines
concat-diff_lines diff =
    ap concat (lines_of-mark (0, 0) (split_inclusive diff)) ∙ concat-split_inclusive diff
