-- ===== src/GitIndex.antt =====
-- src/git_index.rs: the reader of git's index that lists the entries that may be racily clean. A slice
-- out of range would be a panic; what the reader does not understand is refused.
mod NoPanic
mod Entries
mod Printed
mod Tests
use hk.Prelude.{
  ℕ, zero, suc, ◌+◌, ◌-◌, ◌*◌, ◌/◌, ◌%◌, ◌^◌, min, Bool, true, false, ◌&&◌, ◌||◌, not, Option, none,
  some, List, [], ◌∷◌, ◌++◌, Bytes, bytes_eq, any, length, take, drop, ltb, leb, ◌==◌,
  if◌then◌else◌,
}

abbrev pub oid_len : ℕ
oid_len = 20

abbrev pub entry_fixed_len : ℕ
entry_fixed_len = 62

abbrev pub signature : Bytes
signature = 68 ∷ 73 ∷ 82 ∷ 67 ∷ []

-- `data.get(at..at + n)`.
unfoldable pub get_range : Bytes → ℕ → ℕ → Option Bytes
get_range content at n =
    if leb (at + n) (length content) then some (take n (drop at content)) else none

-- A big-endian number.
unfoldable pub be_number : ℕ → Bytes → ℕ
be_number acc [] = acc
be_number acc (b ∷ bs) = be_number (acc * 256 + b) bs

abbrev pub number_of : Option Bytes → Option ℕ
number_of none = none
number_of (some bs) = some (be_number 0 bs)

unfoldable pub be_u32 : Bytes → ℕ → Option ℕ
unfolding get_range be_number
be_u32 content at = number_of (get_range content at 4)

unfoldable pub be_u16 : Bytes → ℕ → Option ℕ
unfolding get_range be_number
be_u16 content at = number_of (get_range content at 2)

abbrev pub suc_of : Option ℕ → Option ℕ
suc_of none = none
suc_of (some n) = some (suc n)

-- The offset of the first NUL.
unfoldable pub nul_offset : Bytes → Option ℕ
nul_offset [] = none
nul_offset (b ∷ bs) = let later = suc_of (nul_offset bs) in if b == 0 then some 0 else later

abbrev pub continues : ℕ → Bool
continues c = leb 128 c

-- `value.checked_add(1)` and the test of its leading zeros, for 64 bits.
abbrev pub is_too_large : ℕ → Bool
is_too_large value = leb (2 ^ 57) (value + 1)

-- The bytes after the first: the value and the number of bytes so far.
unfoldable pub varint_rest : ℕ → ℕ → Bytes → Option (ℕ × ℕ)
varint_rest value len [] = none
varint_rest value len (c ∷ bs) =
    let next = (value + 1) * 128 + c % 128 in
    let rest = varint_rest next (suc len) bs in
    if is_too_large value then none else if continues c then rest else some (next, suc len)

unfoldable pub decode_varint : Bytes → Option (ℕ × ℕ)
unfolding varint_rest
decode_varint [] = none
decode_varint (c ∷ bs) = if continues c then varint_rest (c % 128) 1 bs else some (c % 128, 1)

-- What reading gives.
pub data Reading (A : Type 0) : Type 0 where
  panicked : Reading A
  refused : Reading A
  value : A → Reading A

module _ {A B : Type 0} where
  -- `?` and the code after it.
  abbrev pub and_then : Reading A → (A → Reading B) → Reading B
  and_then panicked f = panicked
  and_then refused f = refused
  and_then (value a) f = f a

module _ {A : Type 0} where
  abbrev pub of_option : Option A → Reading A
  of_option none = refused
  of_option (some a) = value a

-- `data.get(pos..end)?`.
unfoldable pub rest_from : Bytes → ℕ → ℕ → Reading Bytes
rest_from content end pos =
    if leb pos end && leb end (length content)
    then value (take (end - pos) (drop pos content))
    else refused

-- `data[from..to]`.
unfoldable pub slice_of : Bytes → ℕ → ℕ → Reading Bytes
slice_of content from to =
    if leb from to && leb to (length content)
    then value (take (to - from) (drop from content))
    else panicked

-- Where the reader is, the path of the last entry, and the paths found, the last first.
pub record Reader : Type 0 where
  pub pos : ℕ
  pub path : Bytes
  pub racy : List Bytes

abbrev is_not_nul : ℕ → Bool
is_not_nul b = not (b == 0)

-- Where an entry's padding of one to eight NULs ends.
abbrev pub padded : ℕ → ℕ → ℕ
padded start stop = start + (stop - start + 8) / 8 * 8

-- The path of an entry of versions 2 and 3, and where the entry ends.
unfoldable pub read_whole_path : Bytes → ℕ → ℕ → ℕ → Reading (Bytes × ℕ)
unfolding rest_from slice_of nul_offset any
read_whole_path content end start pos = and_then (rest_from content end pos) λ rest.
    and_then (of_option (nul_offset rest)) λ len.
      and_then (slice_of content pos (pos + len)) λ path.
        let stop = padded start (pos + len) in
        if ltb end stop
        then refused
        else and_then (slice_of content (pos + len) stop)
            λ padding. if any is_not_nul padding then refused else value (path, stop)

-- The path of an entry of version 4 from that of the entry before.
unfoldable pub read_suffix_path : Bytes → ℕ → Bytes → ℕ → Reading (Bytes × ℕ)
unfolding rest_from slice_of nul_offset decode_varint
read_suffix_path content end path pos = and_then (rest_from content end pos) λ rest.
    and_then (of_option (decode_varint rest)) λ (strip, len).
      if ltb (length path) strip
      then refused
      else and_then (rest_from content end (pos + len)) λ more.
        and_then (of_option (nul_offset more)) λ suffix_len.
          and_then (slice_of content (pos + len) (pos + len + suffix_len))
            λ suffix. value (take (length path - strip) path ++ suffix, pos + len + suffix_len + 1)

abbrev pub is_extended : ℕ → Bool
is_extended flags = flags / 16384 % 2 == 1

-- The state after an entry whose path ends at a position.
abbrev pub with_entry : ℕ → ℕ → ℕ → ℕ → Reader → Bytes × ℕ → Reading Reader
with_entry secs mtime size flags r (path, pos) =
    if flags % 4096 == min (length path) 4095
    then value (record {
      pos = pos;
      path = path;
      racy = if not (size == 0) && leb secs mtime then path ∷ r.racy else r.racy;
    })
    else refused

-- The path and the end of an entry after its fixed fields.
abbrev pub read_path : Bytes → ℕ → ℕ → Reader → ℕ → Reading (Bytes × ℕ)
read_path content end version r pos =
    if version == 4
    then read_suffix_path content end r.path pos
    else read_whole_path content end r.pos pos

unfoldable pub read_entry : Bytes → ℕ → ℕ → ℕ → Reader → Reading Reader
unfolding get_range be_u32 be_u16 read_whole_path read_suffix_path
read_entry content end secs version r =
    and_then (of_option (get_range content r.pos entry_fixed_len)) λ fixed.
      and_then (of_option (be_u32 fixed 8)) λ mtime. and_then (of_option (be_u32 fixed 36)) λ size.
        and_then (of_option (be_u16 fixed 60)) λ flags.
          if is_extended flags && ltb version 3
          then refused
          else and_then
              (read_path content end version r
                (r.pos + entry_fixed_len + (if is_extended flags then 2 else 0)))
              (with_entry secs mtime size flags r)

unfoldable pub read_entries : ℕ → Bytes → ℕ → ℕ → ℕ → Reader → Reading Reader
unfolding read_entry
read_entries zero content end secs version r = value r
read_entries (suc n) content end secs version r =
    and_then (read_entry content end secs version r) (read_entries n content end secs version)

abbrev pub link_signature : Bytes
link_signature = 108 ∷ 105 ∷ 110 ∷ 107 ∷ []

-- The extensions, on fuel: running out of it would be a panic.
unfoldable pub skip_extensions : ℕ → Bytes → ℕ → ℕ → Reading ℕ
unfolding get_range be_u32 bytes_eq
skip_extensions zero content end pos = if ltb pos end then panicked else value pos
skip_extensions (suc fuel) content end pos =
    if not (ltb pos end)
    then value pos
    else and_then (of_option (get_range content pos 4)) λ name.
      and_then (of_option (be_u32 content (pos + 4))) λ size.
        if bytes_eq name link_signature
        then refused
        else skip_extensions fuel content end (pos + (size + 8))

abbrev pub start : Reader
start = record { pos = 12; path = []; racy = [] }

unfoldable pub reverse_onto : List Bytes → List Bytes → List Bytes
reverse_onto done [] = done
reverse_onto done (p ∷ ps) = reverse_onto (p ∷ done) ps

-- The end of the entries and extensions is where the checksum starts.
unfoldable pub racily_clean_paths : Bytes → ℕ → Reading (List Bytes)
unfolding bytes_eq be_u32 read_entries skip_extensions reverse_onto
racily_clean_paths content secs =
    if ltb (length content) (12 + oid_len) || not (bytes_eq (take 4 content) signature)
    then refused
    else and_then (of_option (be_u32 content 4)) λ version.
      if not (leb 2 version && leb version 4)
      then refused
      else and_then (of_option (be_u32 content 8)) λ count.
        and_then (read_entries count content (length content - oid_len) secs version start) λ r.
          and_then (skip_extensions (length content) content (length content - oid_len) r.pos)
            λ pos.
              if pos == length content - oid_len then value (reverse_onto [] r.racy) else refused
