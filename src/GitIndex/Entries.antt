-- ===== src/GitIndex/Entries.antt =====
-- src/git_index.rs: an entry of version 2 or 3 as git writes it.
use hk.Prelude.{
  ℕ, zero, suc, ◌+◌, ◌-◌, ◌*◌, ◌/◌, ◌%◌, ◌≤◌, min, ◌≡◌, refl, ap, ap₂, sym, ◌∙◌, Bool, true, false,
  ◌&&◌, not, some, List, [], ◌∷◌, ◌++◌, arith, Bytes, append_assoc, any, contains_byte, length,
  length-append, take, drop, replicate, ltb, leb, ◌==◌, if◌then◌else◌,
}
use hk.GitIndex.{
  entry_fixed_len, get_range, be_number, be_u32, be_u16, nul_offset, value, rest_from, slice_of,
  Reader, is_not_nul, padded, read_whole_path, is_extended, read_entry,
}

drop-append : (a b : Bytes) → drop (length a) (a ++ b) ≡ b
drop-append [] b = refl
drop-append (x ∷ a) b = drop-append a b

take-append : (a b : Bytes) → take (length a) (a ++ b) ≡ a
take-append [] b = refl
take-append (x ∷ a) b = ap (λ t. x ∷ t) (take-append a b)

-- What stands between two other parts.
between : (a b c : Bytes) → take (length b) (drop (length a) (a ++ (b ++ c))) ≡ b
between a b c = ap (take (length b)) (drop-append a (b ++ c)) ∙ take-append b c

length-parts : (a b c : Bytes) → length (a ++ (b ++ c)) ≡ length a + length b + length c
length-parts a b c = omega (arith, length-append a (b ++ c), length-append b c)

pub get_range-between :
    (content a b c : Bytes) (at n : ℕ)
    → content ≡ a ++ (b ++ c)
    → at ≡ length a
    → n ≡ length b
    → get_range content at n ≡ some b
unfolding get_range
get_range-between content a b c at n e i j =
    let fits : leb (at + n) (length content) ≡ true =
      ground (arith, ap length e, length-parts a b c, i, j) in
    rw fits (ap some (ap₂ (λ k d. take k d) j (ap₂ (λ x y. drop x y) i e) ∙ between a b c))

pub slice_of-between :
    (content a b c : Bytes) (from to : ℕ)
    → content ≡ a ++ (b ++ c)
    → from ≡ length a
    → to ≡ length a + length b
    → slice_of content from to ≡ value b
unfolding slice_of
slice_of-between content a b c from to e i j =
    let fits : (leb from to && leb to (length content)) ≡ true =
      ground (arith, ap length e, length-parts a b c, i, j) in
    let n : to - from ≡ length b = omega (arith, i, j) in
    rw fits (ap value (ap₂ (λ k d. take k d) n (ap₂ (λ x y. drop x y) i e) ∙ between a b c))

pub rest_from-between :
    (content a b c : Bytes) (end pos : ℕ)
    → content ≡ a ++ (b ++ c)
    → pos ≡ length a
    → end ≡ length a + length b
    → rest_from content end pos ≡ value b
unfolding rest_from
rest_from-between content a b c end pos e i j =
    let fits : (leb pos end && leb end (length content)) ≡ true =
      ground (arith, ap length e, length-parts a b c, i, j) in
    let n : end - pos ≡ length b = omega (arith, i, j) in
    rw fits (ap value (ap₂ (λ k d. take k d) n (ap₂ (λ x y. drop x y) i e) ∙ between a b c))

pub nul_offset-append :
    (p rest : Bytes) → contains_byte p 0 ≡ false → nul_offset (p ++ 0 ∷ rest) ≡ some (length p)
unfolding nul_offset contains_byte
nul_offset-append [] rest h = refl
nul_offset-append (c ∷ p) rest h = ground (arith, nul_offset-append p rest)

-- An entry's fixed fields and its path.
pub record Entry : Type 0 where
  pub fixed : Bytes
  pub path : Bytes

abbrev pub number_at : ℕ → ℕ → Bytes → ℕ
number_at n at bs = be_number 0 (take n (drop at bs))

abbrev pub flags_of : Entry → ℕ
flags_of e = number_at 2 60 e.fixed

-- An entry that is not extended and whose flags have the length of its path.
pub record IsEntry (e : Entry) : Type 0 where
  pub whole : length e.fixed ≡ 62
  pub plain : is_extended (flags_of e) ≡ false
  pub counted : (flags_of e % 4096) ≡ min (length e.path) 4095
  pub no_nul : contains_byte e.path 0 ≡ false

-- How many NULs there are after the first one.
abbrev pub more_nuls : ℕ → ℕ
more_nuls n = (62 + n + 8) / 8 * 8 - (63 + n)

abbrev pub padding : Entry → Bytes
padding e = 0 ∷ replicate (more_nuls (length e.path)) 0

abbrev pub entry_bytes : Entry → Bytes
entry_bytes e = e.fixed ++ (e.path ++ padding e)

length-replicate : (n : ℕ) → length (replicate {A = ℕ} n 0) ≡ n
length-replicate zero = refl
length-replicate (suc n) = ap suc (length-replicate n)

any-padding : (n : ℕ) → any is_not_nul (replicate n 0) ≡ false
unfolding any
any-padding zero = refl
any-padding (suc n) = any-padding n

abbrev pub is_racy : ℕ → Entry → Bool
is_racy secs e = not (number_at 4 36 e.fixed == 0) && leb secs (number_at 4 8 e.fixed)

be_u32-inside : (bs : Bytes) (at : ℕ) → at + 4 ≤ length bs → be_u32 bs at ≡ some (number_at 4 at bs)
unfolding be_u32 get_range
be_u32-inside bs at h = let e : leb (at + 4) (length bs) ≡ true = ground (arith, h) in rw e refl

be_u16-inside : (bs : Bytes) (at : ℕ) → at + 2 ≤ length bs → be_u16 bs at ≡ some (number_at 2 at bs)
unfolding be_u16 get_range
be_u16-inside bs at h = let e : leb (at + 2) (length bs) ≡ true = ground (arith, h) in rw e refl

any-nuls : (n : ℕ) → any is_not_nul (0 ∷ replicate n 0) ≡ false
unfolding any
any-nuls n = any-padding n

module _ (e : Entry) (pre more sum : Bytes) where
  abbrev pub whole_content : Bytes
  whole_content = pre ++ (entry_bytes e ++ (more ++ sum))

  abbrev pub whole_end : ℕ
  whole_end = length pre + length (entry_bytes e) + length more

  from_path : whole_content ≡ (pre ++ e.fixed) ++ ((e.path ++ (padding e ++ more)) ++ sum)
  from_path = simp append_assoc

  at_path : whole_content ≡ (pre ++ e.fixed) ++ (e.path ++ (padding e ++ (more ++ sum)))
  at_path = simp append_assoc

  at_padding : whole_content ≡ ((pre ++ e.fixed) ++ e.path) ++ (padding e ++ (more ++ sum))
  at_padding = simp append_assoc

read_whole_path-steps :
    (content : Bytes) (end s pos n : ℕ) (r p pad : Bytes)
    → rest_from content end pos ≡ value r
    → nul_offset r ≡ some n
    → slice_of content pos (pos + n) ≡ value p
    → ltb end (padded s (pos + n)) ≡ false
    → slice_of content (pos + n) (padded s (pos + n)) ≡ value pad
    → any is_not_nul pad ≡ false
    → read_whole_path content end s pos ≡ value (p, padded s (pos + n))
unfolding read_whole_path
read_whole_path-steps content end s pos n r p pad a b c d e f = rw (a, b, c, d, e, f) refl

same_numbers : (a b : ℕ) → a ≡ b → (a == b) ≡ true
same_numbers a b e = ground (arith, e)

read_entry-steps :
    (content : Bytes) (end secs version : ℕ) (r : Reader) (f p : Bytes) (pos mtime size flags : ℕ)
    → get_range content r.pos entry_fixed_len ≡ some f
    → be_u32 f 8 ≡ some mtime
    → be_u32 f 36 ≡ some size
    → be_u16 f 60 ≡ some flags
    → is_extended flags ≡ false
    → (version == 4) ≡ false
    → read_whole_path content end r.pos (r.pos + 62 + 0) ≡ value (p, pos)
    → (flags % 4096) ≡ min (length p) 4095
    → read_entry content end secs version r
      ≡ value (record {
        pos = pos;
        path = p;
        racy = if not (size == 0) && leb secs mtime then p ∷ r.racy else r.racy;
      })
unfolding read_entry
read_entry-steps content end secs version r f p pos mtime size flags a b c d e g h i =
    let k : (flags % 4096 == min (length p) 4095) ≡ true =
      same_numbers (flags % 4096) (min (length p) 4095) i in
    rw (a, b, c, d, e, g, h, k) refl

-- The paths found so far with an entry more, the last first.
abbrev pub push_racy : ℕ → Entry → List Bytes → List Bytes
push_racy secs e racy = if is_racy secs e then e.path ∷ racy else racy

module _ (e : Entry) (pre more sum : Bytes) (h : IsEntry e) where
  padding-length : length (padding e) ≡ suc (more_nuls (length e.path))
  padding-length = ap suc (length-replicate (more_nuls (length e.path)))

  entry_bytes-length : length (entry_bytes e) ≡ 62 + length e.path + suc (more_nuls (length e.path))
  entry_bytes-length = omega (
    arith,
    length-append e.fixed (e.path ++ padding e),
    length-append e.path (padding e),
    padding-length,
    h.whole,
  )

  entry_end :
      padded (length pre) (length pre + 62 + 0 + length e.path)
      ≡ length pre + length (entry_bytes e)
  entry_end = omega (arith, entry_bytes-length)

  read_whole_path-entry :
      read_whole_path
        (whole_content e pre more sum)
        (whole_end e pre more sum)
        (length pre)
        (length pre + 62 + 0)
      ≡ value (e.path, length pre + length (entry_bytes e))
  read_whole_path-entry =
      let content = whole_content e pre more sum in
      let end = whole_end e pre more sum in
      let pos = length pre + 62 + 0 in
      let front = length-append pre e.fixed in
      let pad = length-append (padding e) more in
      let middle = length-append e.path (padding e ++ more) in
      read_whole_path-steps content end (length pre) pos (length e.path)
        (e.path ++ (padding e ++ more)) e.path (padding e)
        (rest_from-between content (pre ++ e.fixed) (e.path ++ (padding e ++ more)) sum end pos
          (from_path e pre more sum) (omega (arith, front, h.whole))
          (omega (arith, front, h.whole, middle, pad, padding-length, entry_bytes-length)))
        (nul_offset-append e.path (replicate (more_nuls (length e.path)) 0 ++ more) h.no_nul)
        (slice_of-between content (pre ++ e.fixed) e.path (padding e ++ (more ++ sum)) pos
          (pos + length e.path) (at_path e pre more sum) (omega (arith, front, h.whole))
          (omega (arith, front, h.whole)))
        (ground (arith, entry_end))
        (slice_of-between content ((pre ++ e.fixed) ++ e.path) (padding e) (more ++ sum)
          (pos + length e.path) (padded (length pre) (pos + length e.path))
          (at_padding e pre more sum)
          (omega (arith, front, h.whole, length-append (pre ++ e.fixed) e.path))
          (omega (
            arith,
            entry_end,
            front,
            h.whole,
            length-append (pre ++ e.fixed) e.path,
            padding-length,
            entry_bytes-length,
          )))
        (any-nuls (more_nuls (length e.path)))
      ∙ ap (λ k. value (e.path, k)) entry_end

  pub read_entry-entry :
      (secs version : ℕ) (path : Bytes) (racy : List Bytes)
      → (version == 4) ≡ false
      → read_entry
          (whole_content e pre more sum)
          (whole_end e pre more sum)
          secs
          version
          (record { pos = length pre; path = path; racy = racy })
        ≡ value (record {
          pos = length pre + length (entry_bytes e);
          path = e.path;
          racy = push_racy secs e racy;
        })
  read_entry-entry secs version path racy v =
      read_entry-steps (whole_content e pre more sum) (whole_end e pre more sum) secs version
        (record { pos = length pre; path = path; racy = racy }) e.fixed e.path
        (length pre + length (entry_bytes e)) (number_at 4 8 e.fixed) (number_at 4 36 e.fixed)
        (flags_of e)
        (get_range-between (whole_content e pre more sum) pre e.fixed
          (e.path ++ (padding e ++ (more ++ sum))) (length pre) 62 (simp append_assoc) refl
          (sym h.whole))
        (be_u32-inside e.fixed 8 (omega (arith, h.whole)))
        (be_u32-inside e.fixed 36 (omega (arith, h.whole)))
        (be_u16-inside e.fixed 60 (omega (arith, h.whole))) h.plain v read_whole_path-entry
        h.counted
