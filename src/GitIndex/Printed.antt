-- ===== src/GitIndex/Printed.antt =====
-- src/git_index.rs: the entries of versions 2 and 3 as git writes them.
use hk.Prelude.{
  ℕ, zero, suc, ◌+◌, ◌-◌, ◌≡◌, refl, ap, ap₂, sym, ◌∙◌, Bool, true, false, ◌&&◌, ◌||◌, not, some,
  List, [], ◌∷◌, ◌++◌, arith, Bytes, bytes_eq, append_assoc, append-nil, length, length-append,
  take, ltb, leb, ◌==◌, if◌then◌else◌,
}
use hk.GitIndex.{
  oid_len, signature, be_number, number_of, be_u32, value, and_then, Reader, read_entry,
  read_entries, skip_extensions, start, reverse_onto, racily_clean_paths,
}
use hk.GitIndex.Entries.{
  get_range-between, Entry, IsEntry, is_racy, push_racy, entry_bytes, whole_content, whole_end,
  read_entry-entry,
}

abbrev pub printed_entries : List Entry → Bytes
printed_entries [] = []
printed_entries (e ∷ es) = entry_bytes e ++ printed_entries es

abbrev pub AllEntries : List Entry → Type 0
AllEntries [] = Unit
AllEntries (e ∷ es) = IsEntry e × AllEntries es

-- The reader after entries.
abbrev pub read_all : ℕ → List Entry → Reader → Reader
read_all secs [] r = r
read_all secs (e ∷ es) r =
    read_all secs es (record {
      pos = r.pos + length (entry_bytes e);
      path = e.path;
      racy = push_racy secs e r.racy;
    })

read_entries-printed :
    (es : List Entry) (content pre sum : Bytes) (end secs version : ℕ) (r : Reader)
    → AllEntries es
    → (version == 4) ≡ false
    → content ≡ pre ++ (printed_entries es ++ sum)
    → end ≡ length pre + length (printed_entries es)
    → r.pos ≡ length pre
    → read_entries (length es) content end secs version r ≡ value (read_all secs es r)
unfolding read_entries
read_entries-printed [] content pre sum end secs version r h v c n p = refl
read_entries-printed (e ∷ es) content pre sum end secs version r (h, hs) v c n p =
    let whole : content ≡ whole_content e pre (printed_entries es) sum = c ∙ simp append_assoc in
    let size : end ≡ whole_end e pre (printed_entries es) sum =
      omega (arith, n, length-append (entry_bytes e) (printed_entries es)) in
    let next : Reader = record {
      pos = r.pos + length (entry_bytes e);
      path = e.path;
      racy = push_racy secs e r.racy;
    } in
    ap (λ o. and_then o (read_entries (length es) content end secs version))
      (ap₂ (λ x y. read_entry x y secs version r) whole size
        ∙ ap
            (λ k.
              read_entry (whole_content e pre (printed_entries es) sum)
                (whole_end e pre (printed_entries es) sum) secs version
                (record { pos = k; path = r.path; racy = r.racy }))
            p
        ∙ read_entry-entry e pre (printed_entries es) sum h secs version r.path r.racy v
        ∙ ap
            (λ k. value (record {
              pos = k + length (entry_bytes e);
              path = e.path;
              racy = push_racy secs e r.racy;
            }))
            (sym p))
    ∙ read_entries-printed es content (pre ++ entry_bytes e) sum end secs version next hs v
        (whole ∙ simp append_assoc)
        (omega (
          arith,
          n,
          length-append (entry_bytes e) (printed_entries es),
          length-append pre (entry_bytes e),
        ))
        (omega (arith, p, length-append pre (entry_bytes e)))

read_all-pos :
    (secs : ℕ) (es : List Entry) (r : Reader)
    → (read_all secs es r).pos ≡ r.pos + length (printed_entries es)
read_all-pos secs [] r = omega arith
read_all-pos secs (e ∷ es) r = omega (
  arith,
  length-append (entry_bytes e) (printed_entries es),
  read_all-pos secs es (record {
    pos = r.pos + length (entry_bytes e);
    path = e.path;
    racy = push_racy secs e r.racy;
  }),
)

-- The paths of the entries with a size that were written at that time or later.
unfoldable pub racy_paths : ℕ → List Entry → List Bytes
racy_paths secs [] = []
racy_paths secs (e ∷ es) =
    let rest = racy_paths secs es in if is_racy secs e then e.path ∷ rest else rest

reverse-read_all :
    (secs : ℕ) (es : List Entry) (r : Reader) (tail : List Bytes)
    → reverse_onto tail (read_all secs es r).racy ≡ reverse_onto (racy_paths secs es ++ tail) r.racy
unfolding racy_paths reverse_onto
reverse-read_all secs [] r tail = refl
reverse-read_all secs (e ∷ es) r tail =
    reverse-read_all secs es
      (record {
        pos = r.pos + length (entry_bytes e);
        path = e.path;
        racy = push_racy secs e r.racy;
      })
      tail
    ∙ pushed (is_racy secs e)
  where
    pushed :
        (b : Bool)
        → reverse_onto (racy_paths secs es ++ tail) (if b then e.path ∷ r.racy else r.racy)
          ≡ reverse_onto
              ((if b then e.path ∷ racy_paths secs es else racy_paths secs es) ++ tail)
              r.racy
    pushed true = refl
    pushed false = refl

racily_clean_paths-steps :
    (content : Bytes) (secs version count pos : ℕ) (r : Reader)
    → (ltb (length content) 32 || not (bytes_eq (take 4 content) signature)) ≡ false
    → be_u32 content 4 ≡ some version
    → (leb 2 version && leb version 4) ≡ true
    → be_u32 content 8 ≡ some count
    → read_entries count content (length content - oid_len) secs version start ≡ value r
    → skip_extensions (length content) content (length content - oid_len) r.pos ≡ value pos
    → (pos == length content - oid_len) ≡ true
    → racily_clean_paths content secs ≡ value (reverse_onto [] r.racy)
unfolding racily_clean_paths
racily_clean_paths-steps content secs version count pos r a b c d e f g =
    rw (a, b, c, d, e, f, g) refl

skip_extensions-end :
    (fuel : ℕ) (content : Bytes) (end pos : ℕ)
    → pos ≡ end
    → skip_extensions fuel content end pos ≡ value end
unfolding skip_extensions
skip_extensions-end zero content end pos h =
    let e : ltb pos end ≡ false = ground (arith, h) in rw e (ap value h)
skip_extensions-end (suc fuel) content end pos h =
    let e : ltb pos end ≡ false = ground (arith, h) in rw e (ap value h)

-- Reading an index of version 2 or 3 without extensions, as git writes it, gives the paths of exactly the
-- entries that have a size and were written at the given second or later, in their order; the entries are not
-- extended, their flags have the lengths of their paths, and the header has their number.
pub racily_clean_paths-printed :
    (v c sum : Bytes) (es : List Entry) (secs : ℕ)
    → length v ≡ 4
    → length c ≡ 4
    → length sum ≡ 20
    → (leb 2 (be_number 0 v) && leb (be_number 0 v) 3) ≡ true
    → be_number 0 c ≡ length es
    → AllEntries es
    → racily_clean_paths (signature ++ (v ++ (c ++ (printed_entries es ++ sum)))) secs
      ≡ value (racy_paths secs es)
unfolding be_u32 bytes_eq reverse_onto
racily_clean_paths-printed v c sum es secs lv lc ls hv hc hs =
    let content = signature ++ (v ++ (c ++ (printed_entries es ++ sum))) in
    let size : length content ≡ 12 + length (printed_entries es) + 20 = omega (
      arith,
      length-append v (c ++ (printed_entries es ++ sum)),
      length-append c (printed_entries es ++ sum),
      length-append (printed_entries es) sum,
      lv,
      lc,
      ls,
    ) in
    let end : length content - oid_len ≡ 12 + length (printed_entries es) = omega (arith, size) in
    let header : length (signature ++ (v ++ c)) ≡ 12 = omega (arith, length-append v c, lv, lc) in
    let last = read_all-pos secs es start in
    racily_clean_paths-steps content secs (be_number 0 v) (length es) (length content - oid_len)
      (read_all secs es start) (ground (arith, size))
      (ap number_of (
        get_range-between content signature v (c ++ (printed_entries es ++ sum)) 4 4 refl refl
          (sym lv)))
      (ground (arith, hv))
      (ap number_of (
          get_range-between content (signature ++ v) c (printed_entries es ++ sum) 8 4 refl
            (omega (arith, lv)) (sym lc))
        ∙ ap some hc)
      (read_entries-printed es content (signature ++ (v ++ c)) sum (length content - oid_len) secs
        (be_number 0 v) start hs (ground (arith, hv)) (simp append_assoc)
        (omega (arith, end, header)) (sym header))
      (skip_extensions-end (length content) content (length content - oid_len)
        (read_all secs es start).pos (omega (arith, last, end)))
      (ground arith)
    ∙ ap value (reverse-read_all secs es start [] ∙ append-nil (racy_paths secs es))
