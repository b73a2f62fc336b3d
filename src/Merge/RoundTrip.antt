-- ===== src/Merge/RoundTrip.antt =====
-- src/merge.rs: the hunks of `diff_hunks` turn the base into the other text.
use hk.Prelude.{
  ℕ, zero, suc, ◌+◌, ◌-◌, ◌≤◌, ◌≡◌, refl, ap, ◌∙◌, Option, none, some, List, [], ◌∷◌, ◌++◌, Bytes,
  false, arith, length, get_or, drop, if_cases, bytes_eq, bytes_eq→eq, append-nil, append_assoc,
  split_inclusive, concat, concat-split_inclusive, leb,
}
use hk.Merge.{
  Hunk, HunkSource, zeros, dp_row, dp_table, entry, finish, close, opened, walk, diff_hunks,
}
use hk.Merge.Hunks.{patched, patched-cons, InOrder, InOrder-weaken}

-- The last column of the table is zero.
entry-zeros : (ys : List Bytes) → get_or (zeros ys) (length ys) 0 ≡ 0
unfolding zeros
entry-zeros [] = refl
entry-zeros (y ∷ ys) = entry-zeros ys

entry-dp_row :
    (x : Bytes) (ys : List Bytes) (next : List ℕ) → get_or (dp_row x ys next) (length ys) 0 ≡ 0
unfolding dp_row
entry-dp_row x [] next = refl
entry-dp_row x (y ∷ ys) next = entry-dp_row x ys _

last_column : (xs ys : List Bytes) (i : ℕ) → entry (dp_table xs ys) i (length ys) ≡ 0
unfolding dp_table
last_column [] ys zero = entry-zeros ys
last_column [] ys (suc i) = refl
last_column (x ∷ xs) ys zero = entry-dp_row x ys _
last_column (x ∷ xs) ys (suc i) = last_column xs ys i

-- While the walk is at index `i`, an open hunk starts at or before `i`, and holds all the lines.
abbrev Open : Option ℕ → ℕ → List Bytes → Type 0
Open none i lines = lines ≡ []
Open (some start) i lines = start ≤ i

-- A hunk is open only while lines of `other` are left, or the base is at its end.
abbrev CanClose : Option ℕ → List Bytes → List Bytes → Type 0
CanClose none xs ys = Unit
CanClose (some start) (x ∷ xs) [] = ⊥
CanClose (some start) xs ys = Unit

opened-le : (cur : Option ℕ) (i : ℕ) (lines : List Bytes) → Open cur i lines → opened cur i ≤ i
opened-le none i lines o = omega arith
opened-le (some s) i lines o = o

drop-length : (xs : List Bytes) → drop (length xs) xs ≡ []
drop-length [] = refl
drop-length (x ∷ xs) = drop-length xs

drop-sub_self : (i : ℕ) (xs : List Bytes) → drop (i - i) xs ≡ xs
drop-sub_self i xs = let z : i - i ≡ 0 = omega arith in rw z

drop-suc : (k : ℕ) (x : Bytes) (xs zs : List Bytes) → drop k zs ≡ x ∷ xs → drop (suc k) zs ≡ xs
drop-suc zero x xs [] h = cc
drop-suc zero x xs (z ∷ zs) h = cc
drop-suc (suc k) x xs [] h = cc
drop-suc (suc k) x xs (z ∷ zs) h = drop-suc k x xs zs h

CanClose-cons : (s : ℕ) (xs ys : List Bytes) (y : Bytes) → CanClose (some s) xs (y ∷ ys)
CanClose-cons s [] ys y = tt
CanClose-cons s (x ∷ xs) ys y = tt

module _ (source : HunkSource) (n : ℕ) where
  close-InOrder :
      (i : ℕ) (cur : Option ℕ) (lines : List Bytes) (hs : List Hunk)
      → Open cur i lines
      → i ≤ n
      → InOrder 1 (i + 1) n hs
      → InOrder 1 (opened cur i) n (close source i cur lines hs)
  unfolding close
  close-InOrder i none lines hs o le h = InOrder-weaken 1 (i + 1) i n hs (omega arith) h
  close-InOrder i (some s) lines hs o le h = (omega arith, o, le, h)

  finish-InOrder :
      (i : ℕ) (cur : Option ℕ) (lines xs ys : List Bytes)
      → Open cur i lines
      → i ≤ n
      → InOrder 1 (opened cur i) n (finish source n i cur lines xs ys)
  unfolding finish
  finish-InOrder i (some s) lines xs ys o le = omega arith
  finish-InOrder i none lines xs (y ∷ ys) o le = omega arith
  finish-InOrder i none lines (x ∷ xs) [] o le = omega arith
  finish-InOrder i none lines [] [] o le = tt

  -- The hunks of the walk lie in order from where the open hunk starts.
  walk-InOrder :
      (dp : List (List ℕ)) (i j : ℕ) (cur : Option ℕ) (lines xs ys : List Bytes)
      → Open cur i lines
      → i + length xs ≡ n
      → InOrder 1 (opened cur i) n (walk source dp n i j cur lines xs ys)
  unfolding walk
  walk-InOrder dp i j cur lines [] ys o e = finish-InOrder i cur lines [] ys o (omega arith)
  walk-InOrder dp i j cur lines (x ∷ xs) [] o e =
      finish-InOrder i cur lines (x ∷ xs) [] o (omega arith)
  walk-InOrder dp i j cur lines (x ∷ xs) (y ∷ ys) o e =
      if_cases (InOrder 1 (opened cur i) n) (bytes_eq x y) _ _
        (λ _.
          close-InOrder i cur lines _ o (omega arith)
            (walk-InOrder dp (i + 1) (j + 1) none [] xs ys refl (omega arith)))
        λ _.
          if_cases (InOrder 1 (opened cur i) n) (leb (entry dp i (j + 1)) (entry dp (i + 1) j)) _ _
            (λ _.
              walk-InOrder dp (i + 1) j (some (opened cur i)) lines xs (y ∷ ys)
                (omega (arith, opened-le cur i lines o)) (omega arith))
            λ _.
              walk-InOrder dp i (j + 1) (some (opened cur i)) (lines ++ y ∷ []) (x ∷ xs) ys
                (opened-le cur i lines o) e

  close-patched :
      (i : ℕ) (cur : Option ℕ) (lines zs xs ys : List Bytes) (x : Bytes) (hs : List Hunk)
      → Open cur i lines
      → drop (i - opened cur i) zs ≡ x ∷ xs
      → InOrder 1 (i + 1) n hs
      → patched (i + 1) xs hs ≡ ys
      → patched (opened cur i) zs (close source i cur lines hs) ≡ lines ++ x ∷ ys
  unfolding close patched
  close-patched i none lines zs xs ys x hs o d h e =
      let z : i - i ≡ 0 = omega arith in
      rw (o, rw z at d) (patched-cons 1 i n x xs hs h ∙ ap (λ t. x ∷ t) e)
  close-patched i (some s) lines zs xs ys x hs o d h e =
      let z : s - s ≡ 0 = omega arith in
      rw (z, d) (ap (λ t. lines ++ t) (patched-cons 1 i n x xs hs h ∙ ap (λ t. x ∷ t) e))

  -- The walk ended with the base.
  finish-patched_base :
      (i : ℕ) (cur : Option ℕ) (lines zs ys : List Bytes)
      → Open cur i lines
      → i ≡ n
      → drop (i - opened cur i) zs ≡ []
      → patched (opened cur i) zs (finish source n i cur lines [] ys) ≡ lines ++ ys
  unfolding finish patched
  finish-patched_base i none lines zs [] o e d =
      let z : i - i ≡ 0 = omega arith in rw (o, rw z at d)
  finish-patched_base i none lines zs (y ∷ ys) o e d =
      let z : i - i ≡ 0 = omega arith in
      let z' : n - i ≡ 0 = omega arith in let d' : zs ≡ [] = rw z at d in rw (o, z', d', append-nil)
  finish-patched_base i (some s) lines zs ys o e d =
      let z : s - s ≡ 0 = omega arith in rw (z, d, append-nil)

  -- The walk ended with the other text.
  finish-patched_other :
      (i : ℕ) (cur : Option ℕ) (lines zs xs : List Bytes) (x : Bytes)
      → Open cur i lines
      → CanClose cur (x ∷ xs) []
      → i + length (x ∷ xs) ≡ n
      → drop (i - opened cur i) zs ≡ x ∷ xs
      → patched (opened cur i) zs (finish source n i cur lines (x ∷ xs) []) ≡ lines ++ []
  unfolding finish patched
  finish-patched_other i none lines zs xs x o c e d =
      let z : i - i ≡ 0 = omega arith in
      let d' : zs ≡ x ∷ xs = rw z at d in
      let z' : n - i ≡ length (x ∷ xs) = omega arith in rw (o, d', z', z) (drop-length (x ∷ xs))
  finish-patched_other i (some s) lines zs xs x o c e d = absurd c

  module _ (dp : List (List ℕ)) (m : ℕ) (column : (i : ℕ) → entry dp i m ≡ 0) where
    -- The walk never inserts the last line of the other text while base lines are left.
    CanClose-insertion :
        (i j s : ℕ) (x : Bytes) (xs ys : List Bytes)
        → j + length ys ≡ m
        → leb (entry dp i j) (entry dp (i + 1) (j - 1)) ≡ false
        → CanClose (some s) (x ∷ xs) ys
    CanClose-insertion i j s x xs [] e q =
        let end : j ≡ m = omega arith in
        absurd (ground (arith, column i, ap (λ (t : ℕ). entry dp i t) end))
    CanClose-insertion i j s x xs (y ∷ ys) e q = tt

    -- Applied to the base, the hunks of the walk give the lines collected and the rest of `other`.
    walk-patched :
        (i j : ℕ) (cur : Option ℕ) (lines zs xs ys : List Bytes)
        → Open cur i lines
        → CanClose cur xs ys
        → i + length xs ≡ n
        → j + length ys ≡ m
        → drop (i - opened cur i) zs ≡ xs
        → patched (opened cur i) zs (walk source dp n i j cur lines xs ys) ≡ lines ++ ys
    unfolding walk
    walk-patched i j cur lines zs [] ys o c e f d =
        finish-patched_base i cur lines zs ys o (omega arith) d
    walk-patched i j cur lines zs (x ∷ xs) [] o c e f d =
        finish-patched_other i cur lines zs xs x o c e d
    walk-patched i j cur lines zs (x ∷ xs) (y ∷ ys) o c e f d =
        if_cases (λ hs. patched (opened cur i) zs hs ≡ lines ++ y ∷ ys) (bytes_eq x y) _ _
          (λ q.
            close-patched i cur lines zs xs ys x _ o d
              (walk-InOrder dp (i + 1) (j + 1) none [] xs ys refl (omega arith))
              (walk-patched (i + 1) (j + 1) none [] xs xs ys refl tt (omega arith) (omega arith)
                (drop-sub_self (i + 1) xs))
            ∙ ap (λ t. lines ++ t ∷ ys) (bytes_eq→eq x y q))
          λ _.
            if_cases (λ hs. patched (opened cur i) zs hs ≡ lines ++ y ∷ ys)
              (leb (entry dp i (j + 1)) (entry dp (i + 1) j)) _ _
              (λ _.
                walk-patched (i + 1) j (some (opened cur i)) lines zs xs (y ∷ ys)
                  (omega (arith, opened-le cur i lines o)) (CanClose-cons (opened cur i) xs ys y)
                  (omega arith) f
                  (let up : i + 1 - opened cur i ≡ suc (i - opened cur i) =
                      omega (arith, opened-le cur i lines o) in
                    rw up (drop-suc _ x xs zs d)))
              λ q.
                walk-patched i (j + 1) (some (opened cur i)) (lines ++ y ∷ []) zs (x ∷ xs) ys
                  (opened-le cur i lines o)
                  (CanClose-insertion i (j + 1) (opened cur i) x xs ys (omega arith)
                    (let down : j + 1 - 1 ≡ j = omega arith in rw down q))
                  e (omega arith) d
                ∙ append_assoc lines (y ∷ []) ys

-- The hunks of `diff_hunks` lie within the lines of the base, in order, with at least one unchanged
-- line between two of them.
pub diff_hunks-InOrder :
    (base other : Bytes) (source : HunkSource)
    → InOrder 1 0 (length (split_inclusive base)) (diff_hunks base other source)
unfolding diff_hunks
diff_hunks-InOrder base other source =
    if_cases (InOrder 1 0 (length (split_inclusive base))) (bytes_eq base other) _ _ (λ _. tt)
      λ _.
        walk-InOrder source (length (split_inclusive base))
          (dp_table (split_inclusive base) (split_inclusive other)) 0 0 none []
          (split_inclusive base) (split_inclusive other) refl (omega arith)

-- Applying the hunks of `diff_hunks` to the lines of the base gives the other text.
pub patched-diff_hunks :
    (base other : Bytes) (source : HunkSource)
    → concat (patched 0 (split_inclusive base) (diff_hunks base other source)) ≡ other
unfolding diff_hunks
patched-diff_hunks base other source =
    if_cases (λ hs. concat (patched 0 (split_inclusive base) hs) ≡ other) (bytes_eq base other) _ _
      (λ q. unfold patched in concat-split_inclusive base ∙ bytes_eq→eq base other q)
      λ _.
        ap concat (
          walk-patched source _ _ (length (split_inclusive other))
            (last_column (split_inclusive base) (split_inclusive other)) 0 0 none []
            (split_inclusive base) _ _ refl tt (omega arith) (omega arith)
            (drop-sub_self 0 (split_inclusive base)))
        ∙ concat-split_inclusive other
