-- ===== src/GitIndex/NoPanic.antt =====
-- src/git_index.rs: no slice is out of range, and the loop over the extensions ends.
use hk.Prelude.{
  ℕ, zero, suc, ◌+◌, ◌-◌, ◌%◌, ◌≤◌, min, ◌≡◌, refl, ap, Bool, true, false, ◌&&◌, ◌||◌, not, Option,
  none, some, [], ◌∷◌, arith, Bytes, bytes_eq, any, length, length-take, length-drop, take, drop,
  ltb, leb, ◌==◌, if◌then◌else◌, if_cases,
}
use hk.GitIndex.{
  oid_len, entry_fixed_len, signature, get_range, be_u32, be_u16, suc_of, nul_offset, decode_varint,
  Reading, panicked, refused, value, and_then, of_option, rest_from, slice_of, Reader, is_not_nul,
  padded, read_whole_path, read_suffix_path, is_extended, with_entry, read_path, read_entry,
  read_entries, link_signature, skip_extensions, start, racily_clean_paths,
}

module _ {A : Type 0} where
  -- An outcome that is no panic, with a property of its value.
  abbrev pub Safe : (A → Type 0) → Reading A → Type 0
  Safe P panicked = ⊥
  Safe P refused = Unit
  Safe P (value a) = P a

  of_option-Safe :
      (P : A → Type 0) (o : Option A) → ((a : A) → o ≡ some a → P a) → Safe P (of_option o)
  of_option-Safe P none h = tt
  of_option-Safe P (some a) h = h a refl

and_then-Safe :
    {A B : Type 0} (P : A → Type 0) (Q : B → Type 0) (o : Reading A) (f : A → Reading B)
    → Safe P o
    → ((a : A) → P a → Safe Q (f a))
    → Safe Q (and_then o f)
and_then-Safe P Q panicked f h k = elim h [ ]
and_then-Safe P Q refused f h k = tt
and_then-Safe P Q (value a) f h k = k a h

abbrev pub Any : {A : Type 0} → A → Type 0
Any a = Unit

if-Safe :
    {A : Type 0} (Q : A → Type 0) (b : Bool) (x y : Reading A)
    → (b ≡ true → Safe Q x)
    → (b ≡ false → Safe Q y)
    → Safe Q (if b then x else y)
if-Safe Q b x y = if_cases {A = Reading _} (Safe Q) b x y

-- A step from an optional value.
option-Safe :
    {A B : Type 0} (Q : B → Type 0) (o : Option A) (f : A → Reading B)
    → ((a : A) → o ≡ some a → Safe Q (f a))
    → Safe Q (and_then (of_option o) f)
option-Safe Q none f h = tt
option-Safe Q (some a) f h = h a refl

or_zero : Option ℕ → ℕ
or_zero none = 0
or_zero (some n) = n

nul_offset-lt : (bs : Bytes) (n : ℕ) → nul_offset bs ≡ some n → suc n ≤ length bs
unfolding nul_offset or_zero
nul_offset-lt [] n h = absurd (cc)
nul_offset-lt (b ∷ bs) n h =
    if_cases {A = Option ℕ} (λ o. o ≡ some n → suc n ≤ suc (length bs)) (b == 0) (some 0)
      (suc_of (nul_offset bs)) (λ _ e. omega (arith, ap or_zero e))
      (λ _. later (nul_offset bs) (nul_offset-lt bs)) h
  where
    later :
        (o : Option ℕ)
        → ((m : ℕ) → o ≡ some m → suc m ≤ length bs)
        → suc_of o ≡ some n
        → suc n ≤ suc (length bs)
    later none k e = absurd (cc)
    later (some m) k e = omega (arith, k m refl, same_offset e)
      where
        same_offset : some (suc m) ≡ some n → suc m ≡ n
        same_offset e = ap (λ o. elim o [ none ↦ 0 | some k ↦ k ]) e

rest_from-Safe :
    (content : Bytes) (end pos : ℕ)
    → Safe
        (λ r. (length r ≡ end - pos) × (pos ≤ end) × (end ≤ length content))
        (rest_from content end pos)
unfolding rest_from
rest_from-Safe content end pos =
    if-Safe (λ r. (length r ≡ end - pos) × (pos ≤ end) × (end ≤ length content))
      (leb pos end && leb end (length content)) _ _
      (λ e.
        let a : pos ≤ end = ground (arith, e) in
        let b : end ≤ length content = ground (arith, e) in
        (
          omega (arith, length-take (end - pos) (drop pos content), length-drop pos content, a, b),
          a,
          b,
        ))
      (λ _. tt)

slice_of-Safe :
    (content : Bytes) (from to : ℕ)
    → from ≤ to
    → to ≤ length content
    → Safe Any (slice_of content from to)
unfolding slice_of
slice_of-Safe content from to a b =
    if-Safe Any (leb from to && leb to (length content)) _ _ (λ _. tt)
      (λ e. absurd (ground (arith, a, b, e)))

padded-le : (s p : ℕ) → s ≤ p → suc p ≤ padded s p
padded-le s p h = omega (arith, h)

read_whole_path-Safe :
    (content : Bytes) (end s pos : ℕ) → s ≤ pos → Safe Any (read_whole_path content end s pos)
unfolding read_whole_path
read_whole_path-Safe content end s pos h =
    and_then-Safe (λ r. (length r ≡ end - pos) × (pos ≤ end) × (end ≤ length content)) Any
      (rest_from content end pos) _ (rest_from-Safe content end pos)
      (λ r (l, a, b). option-Safe Any (nul_offset r) _ (λ len e.
        let k : suc len ≤ length r = nul_offset-lt r len e in
        and_then-Safe Any Any (slice_of content pos (pos + len)) _
          (slice_of-Safe content pos (pos + len) (omega arith) (omega (arith, k, l, a, b)))
          (λ path _.
            if-Safe Any (ltb end (padded s (pos + len))) _ _ (λ _. tt)
              (λ f.
                let g : padded s (pos + len) ≤ end = ground (arith, f) in
                and_then-Safe Any Any (slice_of content (pos + len) (padded s (pos + len))) _
                  (slice_of-Safe content (pos + len) (padded s (pos + len))
                    (omega (arith, padded-le s (pos + len) (omega (arith, h))))
                    (omega (arith, g, b)))
                  (λ padding _. if-Safe Any (any is_not_nul padding) _ _ (λ _. tt) (λ _. tt))))))

read_suffix_path-Safe :
    (content : Bytes) (end : ℕ) (path : Bytes) (pos : ℕ)
    → Safe Any (read_suffix_path content end path pos)
unfolding read_suffix_path
read_suffix_path-Safe content end path pos =
    and_then-Safe (λ r. (length r ≡ end - pos) × (pos ≤ end) × (end ≤ length content)) Any
      (rest_from content end pos) _ (rest_from-Safe content end pos)
      (λ r _. option-Safe Any (decode_varint r) _ (λ (strip, len) _.
        if-Safe Any (ltb (length path) strip) _ _ (λ _. tt)
          (λ _.
            and_then-Safe
              (λ r. (length r ≡ end - (pos + len)) × (pos + len ≤ end) × (end ≤ length content)) Any
              (rest_from content end (pos + len)) _ (rest_from-Safe content end (pos + len))
              (λ more (l, a, b). option-Safe Any (nul_offset more) _ (λ n e.
                let k : suc n ≤ length more = nul_offset-lt more n e in
                and_then-Safe Any Any (slice_of content (pos + len) (pos + len + n)) _
                  (slice_of-Safe content (pos + len) (pos + len + n) (omega arith)
                    (omega (arith, k, l, a, b)))
                  (λ suffix _. tt))))))

read_path-Safe :
    (content : Bytes) (end version : ℕ) (r : Reader) (pos : ℕ)
    → r.pos ≤ pos
    → Safe Any (read_path content end version r pos)
read_path-Safe content end version r pos h =
    if-Safe Any (version == 4) (read_suffix_path content end r.path pos)
      (read_whole_path content end r.pos pos) (λ _. read_suffix_path-Safe content end r.path pos)
      (λ _. read_whole_path-Safe content end r.pos pos h)

with_entry-Safe :
    (secs mtime size flags : ℕ) (r : Reader) (x : Bytes × ℕ)
    → Safe Any (with_entry secs mtime size flags r x)
with_entry-Safe secs mtime size flags r (path, pos) =
    if-Safe Any (flags % 4096 == min (length path) 4095) _ _ (λ _. tt) (λ _. tt)

read_entry-Safe :
    (content : Bytes) (end secs version : ℕ) (r : Reader)
    → Safe Any (read_entry content end secs version r)
unfolding read_entry
read_entry-Safe content end secs version r =
    option-Safe Any (get_range content r.pos entry_fixed_len) _ (λ fixed _.
      option-Safe Any (be_u32 fixed 8) _ (λ mtime _. option-Safe Any (be_u32 fixed 36) _ (λ size _.
        option-Safe Any (be_u16 fixed 60) _ (λ flags _.
          if-Safe Any (is_extended flags && ltb version 3) _ _ (λ _. tt)
            (λ _.
              let pos = r.pos + entry_fixed_len + (if is_extended flags then 2 else 0) in
              and_then-Safe Any Any (read_path content end version r pos)
                (with_entry secs mtime size flags r)
                (read_path-Safe content end version r pos (omega arith))
                (λ x _. with_entry-Safe secs mtime size flags r x))))))

read_entries-Safe :
    (n : ℕ) (content : Bytes) (end secs version : ℕ) (r : Reader)
    → Safe Any (read_entries n content end secs version r)
unfolding read_entries
read_entries-Safe zero content end secs version r = tt
read_entries-Safe (suc n) content end secs version r =
    and_then-Safe Any Any (read_entry content end secs version r)
      (read_entries n content end secs version) (read_entry-Safe content end secs version r)
      (λ next _. read_entries-Safe n content end secs version next)

-- Each round passes eight bytes at least.
skip_extensions-Safe :
    (fuel : ℕ) (content : Bytes) (end pos : ℕ)
    → end ≤ pos + fuel
    → Safe Any (skip_extensions fuel content end pos)
unfolding skip_extensions
skip_extensions-Safe zero content end pos h =
    if-Safe Any (ltb pos end) panicked (value pos) (λ e. absurd (ground (arith, e, h))) (λ _. tt)
skip_extensions-Safe (suc fuel) content end pos h =
    if-Safe Any (not (ltb pos end)) _ _ (λ _. tt)
      (λ _. option-Safe Any (get_range content pos 4) _ (λ name _.
        option-Safe Any (be_u32 content (pos + 4)) _ (λ size _.
          if-Safe Any (bytes_eq name link_signature) _ _ (λ _. tt)
            (λ _. skip_extensions-Safe fuel content end (pos + (size + 8)) (omega (arith, h))))))

-- Whatever the bytes, reading an index does not panic: no slice is out of range, and the loop over the
-- extensions ends within as many rounds as there are bytes.
pub racily_clean_paths-Safe :
    (content : Bytes) (secs : ℕ) → Safe Any (racily_clean_paths content secs)
unfolding racily_clean_paths
racily_clean_paths-Safe content secs =
    let end = length content - oid_len in
    if-Safe Any (ltb (length content) (12 + oid_len) || not (bytes_eq (take 4 content) signature)) _
      _ (λ _. tt)
      (λ _. option-Safe Any (be_u32 content 4) _ (λ version _.
        if-Safe Any (not (leb 2 version && leb version 4)) _ _ (λ _. tt)
          (λ _. option-Safe Any (be_u32 content 8) _ (λ count _.
            and_then-Safe Any Any (read_entries count content end secs version start) _
              (read_entries-Safe count content end secs version start)
              (λ r _.
                and_then-Safe Any Any (skip_extensions (length content) content end r.pos) _
                  (skip_extensions-Safe (length content) content end r.pos (omega arith))
                  (λ pos _. if-Safe Any (pos == end) _ _ (λ _. tt) (λ _. tt)))))))
