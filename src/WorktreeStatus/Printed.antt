-- ===== src/WorktreeStatus/Printed.antt =====
-- src/git.rs, `parse_porcelain_status`: the entries of records as git prints them.
use hk.Prelude.{
  split_on, ℕ, ◌+◌, ◌≡◌, refl, ap, ap₂, ◌∙◌, Bool, true, false, ◌||◌, not, Option, none, some, List,
  [], ◌∷◌, ◌++◌, suc, zero, arith, Bytes, bytes_eq, contains_byte, length, ◌==◌, append_assoc,
}
use hk.WorktreeStatus.{StatusEntry, SkippedPaths}
use hk.WorktreeStatus.Parsing.{
  space, splitn, fields, line_kind, unchanged, field, is_line_kind, sides, entry_of, push_entry,
  has_parts, parse_lines, parse_porcelain_status,
}

-- What git prints of a path: two letters, the other fields and the path; a rename or copy has the two
-- object names and its score as the last of seven fields, and its original path.
pub data Record : Type 0 where
  changed : ℕ → ℕ → List Bytes → Bytes → Record
  moved : ℕ → ℕ → List Bytes → Bytes → Bytes → Record
  conflicted : ℕ → ℕ → List Bytes → Bytes → Record
  untracked : Bytes → Record

-- Fields with a space after each, before a path.
abbrev pub spaced : List Bytes → Bytes → Bytes
spaced [] p = p
spaced (f ∷ fs) p = f ++ space ∷ spaced fs p

abbrev pub record_line : ℕ → ℕ → ℕ → List Bytes → Bytes → Bytes
record_line c x y fs p = spaced ((c ∷ []) ∷ (x ∷ y ∷ []) ∷ fs) p

abbrev pub printed_lines : List Record → List Bytes
printed_lines [] = []
printed_lines (changed x y fs p ∷ rs) = record_line 49 x y fs p ∷ printed_lines rs
printed_lines (moved x y fs p orig ∷ rs) = record_line 50 x y fs p ∷ orig ∷ printed_lines rs
printed_lines (conflicted x y fs p ∷ rs) = record_line 117 x y fs p ∷ printed_lines rs
printed_lines (untracked p ∷ rs) = (63 ∷ space ∷ p) ∷ printed_lines rs

abbrev pub ended : List Bytes → Bytes
ended [] = []
ended (l ∷ ls) = l ++ 0 ∷ ended ls

abbrev pub printed_status : List Record → Bytes
printed_status rs = ended (printed_lines rs)

abbrev pub AllFields : List Bytes → Type 0
AllFields [] = Unit
AllFields (f ∷ fs) = (contains_byte f space ≡ false) × AllFields fs

abbrev pub IsRecord : Record → Type 0
IsRecord (changed x y fs p) = (length fs ≡ 6) × AllFields ((x ∷ y ∷ []) ∷ fs)
IsRecord (moved x y fs p orig) = (length fs ≡ 7) × AllFields ((x ∷ y ∷ []) ∷ fs)
IsRecord (conflicted x y fs p) = (length fs ≡ 8) × AllFields ((x ∷ y ∷ []) ∷ fs)
IsRecord (untracked p) = Unit

abbrev pub AllRecords : List Record → Type 0
AllRecords [] = Unit
AllRecords (r ∷ rs) = IsRecord r × AllRecords rs

abbrev pub NoNul : List Bytes → Type 0
NoNul [] = Unit
NoNul (l ∷ ls) = (contains_byte l 0 ≡ false) × NoNul ls

-- The entry of a record.
abbrev pub status_entry : Record → StatusEntry
status_entry (changed x y fs p) = record {
  index = unchanged x;
  worktree = unchanged y;
  unmerged = false;
  rename_modified = false;
  path = p;
  orig_path = none;
}
status_entry (moved x y fs p orig) = record {
  index = unchanged x;
  worktree = unchanged y;
  unmerged = false;
  rename_modified = not (bytes_eq (field fs 4) (field fs 5));
  path = p;
  orig_path = some orig;
}
status_entry (conflicted x y fs p) = record {
  index = unchanged x;
  worktree = unchanged y;
  unmerged = true;
  rename_modified = false;
  path = p;
  orig_path = none;
}
status_entry (untracked p) = record {
  index = 63;
  worktree = 63;
  unmerged = false;
  rename_modified = false;
  path = p;
  orig_path = none;
}

abbrev pub is_worktree_changed : StatusEntry → Bool
is_worktree_changed e = not (e.worktree == space || e.worktree == 63)

-- A path that is not valid UTF-8 is skipped, and its entry only says whether something is left out.
abbrev pub skip_entry : StatusEntry → SkippedPaths → SkippedPaths
skip_entry e skipped = record {
  raw = skipped.raw ++ e.path ∷ [];
  unstaged = skipped.unstaged || is_worktree_changed e;
  untracked = skipped.untracked || e.worktree == 63;
}

abbrev pub add_entry :
    Bool → StatusEntry → List StatusEntry × SkippedPaths → List StatusEntry × SkippedPaths
add_entry true e (es, skipped) = (es ++ e ∷ [], skipped)
add_entry false e (es, skipped) = (es, skip_entry e skipped)

-- The entries of the records with valid paths, in order, and what is skipped.
unfoldable pub entries :
    (Bytes → Bool) → List Record → List StatusEntry × SkippedPaths → List StatusEntry × SkippedPaths
entries is_utf8 [] acc = acc
entries is_utf8 (r ∷ rs) acc =
    entries is_utf8 rs (add_entry (is_utf8 (status_entry r).path) (status_entry r) acc)

split_on-line :
    (l s : Bytes) → contains_byte l 0 ≡ false → split_on 0 (l ++ 0 ∷ s) ≡ l ∷ split_on 0 s
unfolding split_on contains_byte
split_on-line [] s h = refl
split_on-line (c ∷ l) s h = ground (arith, split_on-line l s)

split_on-ended : (ls : List Bytes) → NoNul ls → split_on 0 (ended ls) ≡ ls ++ [] ∷ []
unfolding split_on
split_on-ended [] h = refl
split_on-ended (l ∷ ls) (h, hs) =
    split_on-line l (ended ls) h ∙ ap (λ r. l ∷ r) (split_on-ended ls hs)

splitn-field :
    (n : ℕ) (f s : Bytes)
    → contains_byte f space ≡ false
    → splitn (suc n) (f ++ space ∷ s) ≡ f ∷ splitn n s
unfolding splitn contains_byte
splitn-field n [] s h = refl
splitn-field n (c ∷ f) s h = ground (arith, splitn-field n f s)

splitn-spaced :
    (n : ℕ) (fs : List Bytes) (p : Bytes)
    → length fs ≡ n
    → AllFields fs
    → splitn n (spaced fs p) ≡ fs ++ p ∷ []
unfolding splitn
splitn-spaced zero [] p e h = refl
splitn-spaced (suc n) [] p e h = absurd (omega (arith, e))
splitn-spaced zero (f ∷ fs) p e h = absurd (omega (arith, e))
splitn-spaced (suc n) (f ∷ fs) p e (h, hs) =
    splitn-field n f (spaced fs p) h ∙ ap (λ r. f ∷ r) (splitn-spaced n fs p (omega (arith, e)) hs)

push_entry-add :
    (b : Bool) (parts : List Bytes) (x y : ℕ) (orig : Option Bytes) (p : Bytes)
    (acc : List StatusEntry × SkippedPaths)
    → push_entry b parts (x, y) orig p acc ≡ add_entry b (entry_of parts (x, y) orig p) acc
push_entry-add true parts x y orig p (es, skipped) = refl
push_entry-add false parts x y orig p (es, skipped) = refl

field-last : (n : ℕ) (fs : List Bytes) (p : Bytes) → length fs ≡ n → field (fs ++ p ∷ []) n ≡ p
field-last zero [] p e = refl
field-last (suc n) [] p e = absurd (omega (arith, e))
field-last zero (f ∷ fs) p e = absurd (omega (arith, e))
field-last (suc n) (f ∷ fs) p e = field-last n fs p (omega (arith, e))

field-front :
    (n i : ℕ) (fs : List Bytes) (p : Bytes)
    → length fs ≡ suc (i + n)
    → field (fs ++ p ∷ []) i ≡ field fs i
field-front n i [] p e = absurd (omega (arith, e))
field-front n zero (f ∷ fs) p e = refl
field-front n (suc i) (f ∷ fs) p e = field-front n i fs p (omega (arith, e))

length-last : (fs : List Bytes) (p : Bytes) → length (fs ++ p ∷ []) ≡ suc (length fs)
length-last [] p = refl
length-last (f ∷ fs) p = ap suc (length-last fs p)

module _ (is_utf8 : Bytes → Bool) where
  parse_alone :
      (line : Bytes) (rest : List Bytes) (acc : List StatusEntry × SkippedPaths) (n : ℕ)
      (parts : List Bytes) (xy : ℕ × ℕ) (p : Bytes)
      → line_kind line ≡ fields n
      → splitn n line ≡ parts
      → has_parts n parts ≡ true
      → sides parts ≡ some xy
      → is_line_kind 50 parts ≡ false
      → field parts n ≡ p
      → parse_lines is_utf8 (line ∷ rest) acc
        ≡ parse_lines is_utf8 rest (push_entry (is_utf8 p) parts xy none p acc)
  unfolding parse_lines
  parse_alone line [] acc n parts xy p k s h e m f = rw (parse_lines, k, s, h, e, s, m, f) refl
  parse_alone line (next ∷ rest) acc n parts xy p k s h e m f =
      rw (parse_lines, k, s, h, e, s, m, f) refl

  parse_paired :
      (line next : Bytes) (rest : List Bytes) (acc : List StatusEntry × SkippedPaths) (n : ℕ)
      (parts : List Bytes) (xy : ℕ × ℕ) (p : Bytes)
      → line_kind line ≡ fields n
      → splitn n line ≡ parts
      → has_parts n parts ≡ true
      → sides parts ≡ some xy
      → is_line_kind 50 parts ≡ true
      → field parts n ≡ p
      → parse_lines is_utf8 (line ∷ next ∷ rest) acc
        ≡ parse_lines is_utf8 rest (push_entry (is_utf8 p) parts xy (some next) p acc)
  unfolding parse_lines
  parse_paired line next rest acc n parts xy p k s h e m f =
      rw (parse_lines, k, s, h, e, s, m, f) refl

-- The parts of a line with its two letters and the rest of its fields.
abbrev parts_of : ℕ → ℕ → ℕ → List Bytes → Bytes → List Bytes
parts_of c x y fs p = (c ∷ []) ∷ (x ∷ y ∷ []) ∷ (fs ++ p ∷ [])

splitn-line :
    (c x y : ℕ) (fs : List Bytes) (p : Bytes) (n : ℕ)
    → (c == space) ≡ false
    → length fs ≡ n
    → AllFields ((x ∷ y ∷ []) ∷ fs)
    → splitn (suc (suc n)) (record_line c x y fs p) ≡ parts_of c x y fs p
unfolding contains_byte
splitn-line c x y fs p n k e (h, hs) =
    splitn-spaced (suc (suc n)) ((c ∷ []) ∷ (x ∷ y ∷ []) ∷ fs) p (omega (arith, e))
      (ground (arith, k), (h, hs))

parts-has_parts :
    (c x y : ℕ) (fs : List Bytes) (p : Bytes) (n : ℕ)
    → length fs ≡ n
    → has_parts (suc (suc n)) (parts_of c x y fs p) ≡ true
parts-has_parts c x y fs p n e = ground (arith, length-last fs p, e)

module _ (is_utf8 : Bytes → Bool) where
  parse_record :
      (r : Record) (rest : List Bytes) (acc : List StatusEntry × SkippedPaths)
      → IsRecord r
      → parse_lines is_utf8 (printed_lines (r ∷ []) ++ rest) acc
        ≡ parse_lines is_utf8 rest (add_entry (is_utf8 (status_entry r).path) (status_entry r) acc)
  unfolding line_kind bytes_eq splitn
  parse_record (changed x y fs p) rest acc (e, h) =
      parse_alone is_utf8 (record_line 49 x y fs p) rest acc 8 (parts_of 49 x y fs p) _ p refl
        (splitn-line 49 x y fs p 6 refl e h) (parts-has_parts 49 x y fs p 6 e) refl refl
        (field-last 6 fs p e)
      ∙ ap (parse_lines is_utf8 rest)
          (push_entry-add (is_utf8 p) (parts_of 49 x y fs p) _ _ none p acc)
  parse_record (moved x y fs p orig) rest acc (e, h) =
      parse_paired is_utf8 (record_line 50 x y fs p) orig rest acc 9 (parts_of 50 x y fs p) _ p refl
        (splitn-line 50 x y fs p 7 refl e h) (parts-has_parts 50 x y fs p 7 e) refl refl
        (field-last 7 fs p e)
      ∙ ap (parse_lines is_utf8 rest) (
          push_entry-add (is_utf8 p) (parts_of 50 x y fs p) _ _ (some orig) p acc
          ∙ ap₂
              (λ a b.
                add_entry (is_utf8 p)
                  (record {
                    index = unchanged x;
                    worktree = unchanged y;
                    unmerged = false;
                    rename_modified = not (bytes_eq a b);
                    path = p;
                    orig_path = some orig;
                  })
                  acc)
              (field-front 2 4 fs p e) (field-front 1 5 fs p e))
  parse_record (conflicted x y fs p) rest acc (e, h) =
      parse_alone is_utf8 (record_line 117 x y fs p) rest acc 10 (parts_of 117 x y fs p) _ p refl
        (splitn-line 117 x y fs p 8 refl e h) (parts-has_parts 117 x y fs p 8 e) refl refl
        (field-last 8 fs p e)
      ∙ ap (parse_lines is_utf8 rest)
          (push_entry-add (is_utf8 p) (parts_of 117 x y fs p) _ _ none p acc)
  parse_record (untracked p) rest acc h =
      parse_alone is_utf8 (63 ∷ space ∷ p) rest acc 1 ((63 ∷ []) ∷ p ∷ []) _ p refl refl refl refl
        refl refl
      ∙ ap (parse_lines is_utf8 rest)
          (push_entry-add (is_utf8 p) ((63 ∷ []) ∷ p ∷ []) 63 63 none p acc)

printed_lines-cons :
    (r : Record) (rs : List Record)
    → printed_lines (r ∷ rs) ≡ printed_lines (r ∷ []) ++ printed_lines rs
printed_lines-cons (changed x y fs p) rs = refl
printed_lines-cons (moved x y fs p orig) rs = refl
printed_lines-cons (conflicted x y fs p) rs = refl
printed_lines-cons (untracked p) rs = refl

parse_lines-records :
    (is_utf8 : Bytes → Bool) (rs : List Record) (acc : List StatusEntry × SkippedPaths)
    → AllRecords rs
    → parse_lines is_utf8 (printed_lines rs ++ [] ∷ []) acc ≡ some (entries is_utf8 rs acc)
unfolding parse_lines line_kind entries
parse_lines-records is_utf8 [] acc h = refl
parse_lines-records is_utf8 (r ∷ rs) acc (h, hs) =
    ap (λ ls. parse_lines is_utf8 (ls ++ [] ∷ []) acc) (printed_lines-cons r rs)
    ∙ ap (λ ls. parse_lines is_utf8 ls acc)
        (append_assoc (printed_lines (r ∷ [])) (printed_lines rs) ([] ∷ []))
    ∙ parse_record is_utf8 r (printed_lines rs ++ [] ∷ []) acc h
    ∙ parse_lines-records is_utf8 rs
        (add_entry (is_utf8 (status_entry r).path) (status_entry r) acc) hs

-- The entries of a printed status, of records with all fields and no NUL in them, are those of its records
-- in their order, except that a path that is not valid UTF-8 is skipped: it is noted as skipped, with
-- whether it is untracked or changed in the worktree.
pub parse_porcelain_status-printed :
    (is_utf8 : Bytes → Bool) (rs : List Record) (skipped : SkippedPaths)
    → AllRecords rs
    → NoNul (printed_lines rs)
    → parse_porcelain_status is_utf8 (printed_status rs) skipped
      ≡ some (entries is_utf8 rs ([], skipped))
parse_porcelain_status-printed is_utf8 rs skipped h n =
    ap (λ ls. parse_lines is_utf8 ls ([], skipped)) (split_on-ended (printed_lines rs) n)
    ∙ parse_lines-records is_utf8 rs ([], skipped) h
