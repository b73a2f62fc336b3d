-- ===== src/Merge.antt =====
-- src/merge.rs: line diffs by the LCS table, and the three-way merge of a fixer's output with the
-- worktree. Lines are byte strings; `usize` indices are natural numbers, bounded by the line counts.
pub mod Hunks
pub mod RoundTrip
pub mod ThreeWay
pub mod Choice
pub mod Sources
pub mod Keeps
pub mod Verdict
mod Tests
use hk.Prelude.{
  ℕ, zero, suc, ◌+◌, ◌-◌, ◌<◌, max, Bool, true, false, ◌&&◌, ◌||◌, Option, none, some, List, [],
  ◌∷◌, ◌++◌, Bytes, bytes_eq, split_inclusive, concat, length, get_or, take, drop, ltb, leb, ◌==◌,
  if◌then◌else◌,
}
use mathlib.Core.List.{tail}
use mathlib.Core.Option

pub data HunkSource : Type 0 where
  fixer worktree : HunkSource

pub record Hunk : Type 0 where
  pub start : ℕ  -- inclusive line index in base
  pub end : ℕ  -- exclusive line index in base
  pub lines : List Bytes
  pub source : HunkSource

-- Row `i` of the LCS table from row `i + 1`, filled from the right as the inner loop does.
dp_row : Bytes → List Bytes → List ℕ → List ℕ
unfolding bytes_eq
dp_row x [] next = 0 ∷ []
dp_row x (y ∷ ys) next =
    let row = dp_row x ys (tail next) in
    (if bytes_eq x y then get_or (tail next) 0 0 + 1 else max (get_or next 0 0) (get_or row 0 0))
    ∷ row

zeros : List Bytes → List ℕ
zeros [] = 0 ∷ []
zeros (y ∷ ys) = 0 ∷ zeros ys

-- The rows `dp[0]` to `dp[n]`.
dp_table : List Bytes → List Bytes → List (List ℕ)
unfolding dp_row zeros
dp_table [] b = zeros b ∷ []
dp_table (x ∷ xs) b = let rows = dp_table xs b in dp_row x b (get_or rows 0 []) ∷ rows

-- `dp[i][j]`.
abbrev entry : List (List ℕ) → ℕ → ℕ → ℕ
entry dp i j = get_or (get_or dp i []) j 0

-- What follows the walk: the open hunk takes the insertions that are left, else a tail insertion
-- or a tail deletion is one more hunk. `n` is the number of lines of base.
finish : HunkSource → ℕ → ℕ → Option ℕ → List Bytes → List Bytes → List Bytes → List Hunk
finish source n i (some start) lines xs ys =
    record { start = start; end = i; lines = lines ++ ys; source = source } ∷ []
finish source n i none lines xs (y ∷ ys) =
    record { start = n; end = n; lines = y ∷ ys; source = source } ∷ []
finish source n i none lines (x ∷ xs) [] =
    record { start = i; end = n; lines = []; source = source } ∷ []
finish source n i none lines [] [] = []

-- `hunks.push` of the open hunk, if there is one, when the lines match again.
close : HunkSource → ℕ → Option ℕ → List Bytes → List Hunk → List Hunk
close source i none lines later = later
close source i (some start) lines later =
    record { start = start; end = i; lines = lines; source = source } ∷ later

-- `if cur_start.is_none() { cur_start = Some(i); }`
abbrev opened : Option ℕ → ℕ → ℕ
opened none i = i
opened (some start) i = start

-- The walk over the table. `xs` and `ys` are `a[i..]` and `b[j..]`; the result is what is pushed
-- to `hunks` from here on.
walk :
    HunkSource
    → List (List ℕ)
    → (n i j : ℕ) → Option ℕ
    → List Bytes
    → List Bytes
    → List Bytes
    → List Hunk
unfolding finish close bytes_eq
walk source dp n i j cur lines [] ys = finish source n i cur lines [] ys
walk source dp n i j cur lines (x ∷ xs) [] = finish source n i cur lines (x ∷ xs) []
walk source dp n i j cur lines (x ∷ xs) (y ∷ ys) =
    let same = walk source dp n (i + 1) (j + 1) none [] xs ys in
    let deletion = walk source dp n (i + 1) j (some (opened cur i)) lines xs (y ∷ ys) in
    let insertion =
      walk source dp n i (j + 1) (some (opened cur i)) (lines ++ y ∷ []) (x ∷ xs) ys in
    if bytes_eq x y
    then close source i cur lines same
    else if leb (entry dp i (j + 1)) (entry dp (i + 1) j)
    then deletion
    else insertion

unfoldable pub diff_hunks : Bytes → Bytes → HunkSource → List Hunk
unfolding walk dp_table split_inclusive bytes_eq
diff_hunks base other source =
    let a = split_inclusive base in
    let b = split_inclusive other in
    let hunks = walk source (dp_table a b) (length a) 0 0 none [] a b in
    if bytes_eq base other then [] else hunks

-- The test of `hunks_overlap` on one pair.
abbrev pub overlaps : Hunk → Hunk → Bool
overlaps f w = f.start == w.start || (ltb f.start w.end && ltb w.start f.end)

any_overlap : Hunk → List Hunk → Bool
any_overlap f [] = false
any_overlap f (w ∷ ws) = overlaps f w || any_overlap f ws

pub any_overlaps : List Hunk → List Hunk → Bool
unfolding any_overlap
any_overlaps [] ws = false
any_overlaps (f ∷ fs) ws = any_overlap f ws || any_overlaps fs ws

unfoldable pub hunks_overlap : Bytes → Bytes → Bytes → Bool
unfolding any_overlaps diff_hunks
hunks_overlap base fixed work =
    any_overlaps (diff_hunks base fixed HunkSource.fixer) (diff_hunks base work HunkSource.worktree)

is_empty {ℓ} : {A : Type ℓ} → List A → Bool
is_empty [] = true
is_empty (x ∷ xs) = false

-- The two inner loops, which pass over the hunks that start before `idx`. A fixer deletion that
-- reaches past `idx` keeps its tail.
pub skip_fixer : ℕ → List Hunk → List Hunk
unfolding is_empty
skip_fixer idx [] = []
skip_fixer idx (h ∷ hs) =
    let rest = skip_fixer idx hs in
    if ltb h.start idx
    then (if is_empty h.lines && ltb idx h.end then record h { start = idx } ∷ hs else rest)
    else h ∷ hs

pub skip_work : ℕ → List Hunk → List Hunk
skip_work idx [] = []
skip_work idx (h ∷ hs) = let rest = skip_work idx hs in if ltb h.start idx then rest else h ∷ hs

-- `take_worktree` where both sides have a hunk.
abbrev take_worktree : Hunk → Hunk → Bool
take_worktree fh wh = ltb wh.start fh.end && ltb fh.start wh.end || leb wh.start fh.start

-- The hunk to apply next, and the hunks that stay on either side.
pub pick : List Hunk → List Hunk → Option (Hunk × List Hunk × List Hunk)
pick [] [] = none
pick [] (w ∷ ws) = some (w, [], ws)
pick (f ∷ fs) [] = some (f, fs, [])
pick (f ∷ fs) (w ∷ ws) = if take_worktree f w then some (w, f ∷ fs, ws) else some (f, fs, w ∷ ws)

-- `a[idx..start]` if `idx < start`; `none` is the panic of a slice out of range.
slice : List Bytes → ℕ → ℕ → Option (List Bytes)
slice a idx start =
    if ltb idx start
    then (if leb start (length a) then some (take (start - idx) (drop idx a)) else none)
    else some []

infixl 5 ◌>>=◌
abbrev ◌>>=◌ {ℓ κ} : {A : Type ℓ} {B : Type κ} → Option A → (A → Option B) → Option B
none >>= f = none
some a >>= f = f a

-- One round of the outer loop after the skips; `next` is the loop from the new `idx` on.
merge_round :
    (ℕ → List Hunk → List Hunk → Option (List Bytes))
    → List Bytes
    → ℕ
    → Option (Hunk × List Hunk × List Hunk)
    → Option (List Bytes)
unfolding slice
merge_round next a idx none = some (if ltb idx (length a) then drop idx a else [])
merge_round next a idx (some (h, fs, ws)) = do
  unchanged ← slice a idx h.start
  rest ← next h.end fs ws
  some (unchanged ++ (h.lines ++ rest))

-- The outer loop, on fuel: `none` is a panic, or fuel that ran out.
pub merge_loop : ℕ → List Bytes → ℕ → List Hunk → List Hunk → Option (List Bytes)
unfolding merge_round pick skip_fixer skip_work
merge_loop zero a idx fs ws = none
merge_loop (suc fuel) a idx fs ws =
    merge_round (merge_loop fuel a) a idx (pick (skip_fixer idx fs) (skip_work idx ws))

unfoldable pub three_way_merge_hunks : Bytes → Option Bytes → Option Bytes → Option Bytes
unfolding merge_loop diff_hunks
three_way_merge_hunks base none none = some base
three_way_merge_hunks base (some f) none = some f
three_way_merge_hunks base none (some w) = some w
three_way_merge_hunks base (some f) (some w) =
    let fs = diff_hunks base f HunkSource.fixer in
    let ws = diff_hunks base w HunkSource.worktree in
    let merged = merge_loop (length fs + length ws + 1) (split_inclusive base) 0 fs ws in
    if bytes_eq w base then some f else Option.map concat merged
