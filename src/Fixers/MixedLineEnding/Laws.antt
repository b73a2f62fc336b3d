-- ===== src/Fixers/MixedLineEnding/Laws.antt =====
-- src/cli/util/mixed_line_ending.rs: the line endings of a normalized text.
use hk.Prelude.{
  ℕ, ◌+◌, ◌<◌, ◌≤◌, ◌≡◌, refl, ap, sym, ◌∙◌, inl, inr, true, false, ◌&&◌, List, [], ◌∷◌, ◌++◌,
  arith, append_assoc, Bytes, newline, carriage_return, contains_byte, ltb, lt→ltb, ◌==◌,
  if◌then◌else◌, if_cases, Bool-cases,
}
use hk.Fixers.Suffix.{ends_with-append_byte, init, ends_with, strip_byte}
use hk.Fixers.MixedLineEnding.{
  Segments, push, segments, count_lf, count_crlf, count_line_endings, rewrite_lines, normalize,
  is_mixed, regular, has_mixed_line_endings, fix_line_endings,
}

-- A line of the file without its newline.
abbrev NoNewline : Bytes → Type 0
NoNewline s = contains_byte s newline ≡ false

abbrev AllNoNewline : List Bytes → Type 0
AllNoNewline [] = Unit
AllNoNewline (l ∷ ls) = NoNewline l × AllNoNewline ls

push-NoNewline :
    (c : ℕ) (r : Segments)
    → (c == newline) ≡ false
    → AllNoNewline r.ended × NoNewline r.tail
    → AllNoNewline (push c r).ended × NoNewline (push c r).tail
unfolding contains_byte
push-NoNewline c r e h = go r.ended r.tail h
  where
    go :
        (ls : List Bytes) (t : Bytes)
        → AllNoNewline ls × NoNewline t
        → AllNoNewline (push c (record { ended = ls; tail = t })).ended
          × NoNewline (push c (record { ended = ls; tail = t })).tail
    go [] t (a, b) = (tt, rw e b)
    go (l ∷ ls) t (a, b) = ((rw e a.0, a.1), b)

segments-NoNewline : (s : Bytes) → AllNoNewline (segments s).ended × NoNewline (segments s).tail
unfolding segments contains_byte
segments-NoNewline [] = (tt, refl)
segments-NoNewline (c ∷ s) =
    let (a, b) = segments-NoNewline s in
    if_cases {A = Segments} (λ r. AllNoNewline r.ended × NoNewline r.tail) (c == newline) _ _
      (λ _. ((refl, a), b)) λ e. push-NoNewline c (segments s) e (a, b)

segments-line :
    (l s : Bytes)
    → NoNewline l
    → segments (l ++ newline ∷ s)
      ≡ record { ended = l ∷ (segments s).ended; tail = (segments s).tail }
unfolding segments contains_byte
segments-line [] s h = refl
segments-line (c ∷ l) s h = ground (arith, segments-line l s)

segments-tail : (l : Bytes) → NoNewline l → segments l ≡ record { ended = []; tail = l }
unfolding segments contains_byte
segments-tail [] h = refl
segments-tail (c ∷ l) h = ground (arith, segments-tail l)

abbrev AllSegments : Bytes → List Bytes → Bytes → Type 0
AllSegments s ls t = segments s ≡ record { ended = ls; tail = t }

NoNewline-append : (l t : Bytes) → NoNewline l → NoNewline t → NoNewline (l ++ t)
unfolding contains_byte
NoNewline-append [] t a b = b
NoNewline-append (c ∷ l) t a b = ground (arith, NoNewline-append l t)

NoNewline-init : (l : Bytes) → NoNewline l → NoNewline (init l)
unfolding contains_byte init
NoNewline-init [] a = refl
NoNewline-init (c ∷ []) a = refl
NoNewline-init (c ∷ d ∷ l) a = ground (arith, NoNewline-init (d ∷ l))

NoNewline-strip_byte : (l : Bytes) (b : ℕ) → NoNewline l → NoNewline (strip_byte l b)
unfolding strip_byte
NoNewline-strip_byte l b a =
    if_cases {A = Bytes} NoNewline (ends_with l b) (init l) l (λ _. NoNewline-init l a) (λ _. a)

-- The lines of a text whose endings were rewritten, as LF and as CRLF.
abbrev stripped : List Bytes → List Bytes
stripped [] = []
stripped (l ∷ ls) = strip_byte l carriage_return ∷ stripped ls

abbrev returned : List Bytes → List Bytes
returned [] = []
returned (l ∷ ls) = (strip_byte l carriage_return ++ carriage_return ∷ []) ∷ returned ls

segments-rewrite_lf :
    (ls : List Bytes) (t : Bytes)
    → AllNoNewline ls
    → NoNewline t
    → AllSegments (rewrite_lines (newline ∷ []) ls t) (stripped ls) t
unfolding rewrite_lines
segments-rewrite_lf [] t a b = segments-tail t b
segments-rewrite_lf (l ∷ ls) t (a, as') b =
    let e = segments-rewrite_lf ls t as' b in
    segments-line (strip_byte l carriage_return) _ (NoNewline-strip_byte l carriage_return a)
    ∙ ap
        (λ (r : Segments). record { ended = strip_byte l carriage_return ∷ r.ended; tail = r.tail })
        e

segments-rewrite_crlf :
    (ls : List Bytes) (t : Bytes)
    → AllNoNewline ls
    → NoNewline t
    → AllSegments (rewrite_lines (carriage_return ∷ newline ∷ []) ls t) (returned ls) t
unfolding rewrite_lines
segments-rewrite_crlf [] t a b = segments-tail t b
segments-rewrite_crlf (l ∷ ls) t (a, as') b =
    let e = segments-rewrite_crlf ls t as' b in
    let line = strip_byte l carriage_return ++ carriage_return ∷ [] in
    let rest = rewrite_lines (carriage_return ∷ newline ∷ []) ls t in
    ap segments
      (sym (append_assoc (strip_byte l carriage_return) (carriage_return ∷ []) (newline ∷ rest)))
    ∙ segments-line line rest (
        NoNewline-append (strip_byte l carriage_return) (carriage_return ∷ [])
          (NoNewline-strip_byte l carriage_return a) (unfold contains_byte in refl))
    ∙ ap (λ (r : Segments). record { ended = line ∷ r.ended; tail = r.tail }) e

-- The lines that end in two carriage returns before their newline.
unfoldable pub count_double : List Bytes → ℕ
unfolding ends_with
count_double [] = 0
count_double (l ∷ ls) =
    (if ends_with l carriage_return && ends_with (init l) carriage_return then 1 else 0)
    + count_double ls

count_crlf-stripped : (ls : List Bytes) → count_crlf (stripped ls) ≡ count_double ls
unfolding count_crlf count_double strip_byte
count_crlf-stripped [] = refl
count_crlf-stripped (l ∷ ls) = ground (arith, count_crlf-stripped ls)

count-stripped :
    (ls : List Bytes)
    → count_lf (stripped ls) + count_crlf (stripped ls) ≡ count_lf ls + count_crlf ls
unfolding count_lf count_crlf
count-stripped [] = refl
count-stripped (l ∷ ls) = ground (arith, count-stripped ls)

count-returned :
    (ls : List Bytes)
    → (count_lf (returned ls) ≡ 0) × (count_crlf (returned ls) ≡ count_lf ls + count_crlf ls)
unfolding count_lf count_crlf
count-returned [] = (refl, refl)
count-returned (l ∷ ls) =
    let (a, b) = count-returned ls in
    let e = ends_with-append_byte (strip_byte l carriage_return) carriage_return in
    (ground (arith, a, e), ground (arith, b, e))

lines-to_crlf :
    (content : Bytes)
    → count_lf (segments content).ended < count_crlf (segments content).ended
    → (segments (normalize content)).ended ≡ returned (segments content).ended
unfolding normalize
lines-to_crlf content h =
    let (a, b) = segments-NoNewline content in
    rw (lt→ltb _ _ h) (
      ap (λ (r : Segments). r.ended)
        (segments-rewrite_crlf (segments content).ended (segments content).tail a b))

lines-to_lf :
    (content : Bytes)
    → count_crlf (segments content).ended ≤ count_lf (segments content).ended
    → (segments (normalize content)).ended ≡ stripped (segments content).ended
unfolding normalize
lines-to_lf content h =
    let (a, b) = segments-NoNewline content in
    let not_more : ltb (count_lf (segments content).ended) (count_crlf (segments content).ended)
        ≡ false =
      ground arith in
    rw not_more (
      ap (λ (r : Segments). r.ended)
        (segments-rewrite_lf (segments content).ended (segments content).tail a b))

-- A text with more CRLF than LF endings has as many CRLF endings after `normalize` as it had line
-- endings, and no LF ending.
pub normalize-to_crlf :
    (content : Bytes)
    → (count_line_endings content).0 < (count_line_endings content).1
    → ((count_line_endings (normalize content)).0 ≡ 0)
      × ((count_line_endings (normalize content)).1
          ≡ (count_line_endings content).0 + (count_line_endings content).1)
unfolding count_line_endings
normalize-to_crlf content h =
    let e = lines-to_crlf content h in
    let (a, b) = count-returned (segments content).ended in (ap count_lf e ∙ a, ap count_crlf e ∙ b)

-- A text with no more CRLF than LF endings keeps its number of line endings, and after `normalize` as
-- many are CRLF as there were lines that ended in two carriage returns before their newline.
pub normalize-to_lf :
    (content : Bytes)
    → (count_line_endings content).1 ≤ (count_line_endings content).0
    → ((count_line_endings (normalize content)).1 ≡ count_double (segments content).ended)
      × ((count_line_endings (normalize content)).0 + (count_line_endings (normalize content)).1
          ≡ (count_line_endings content).0 + (count_line_endings content).1)
unfolding count_line_endings
normalize-to_lf content h =
    let e = lines-to_lf content h in
    (
      ap count_crlf e ∙ count_crlf-stripped (segments content).ended,
      ap (λ ls. count_lf ls + count_crlf ls) e ∙ count-stripped (segments content).ended,
    )

is_mixed-normalize :
    (content : Bytes)
    → count_double (segments content).ended ≡ 0
    → is_mixed (normalize content) ≡ false
unfolding is_mixed count_line_endings
is_mixed-normalize content h =
    elim (Bool-cases
      (ltb (count_lf (segments content).ended) (count_crlf (segments content).ended))) [
        | inl e ↦ ground (arith, normalize-to_crlf content)
        | inr e ↦ ground (arith, normalize-to_lf content)
      ]

unmixed-regular :
    (content : Bytes) → is_mixed content ≡ false → has_mixed_line_endings (regular content) ≡ false
unfolding has_mixed_line_endings
unmixed-regular content h = ground arith

-- Where no line ends in two carriage returns before its newline, `fix_line_endings` leaves no file
-- with mixed line endings.
pub fix-not_mixed :
    (content : Bytes)
    → count_double (segments content).ended ≡ 0
    → has_mixed_line_endings (fix_line_endings (regular content)) ≡ false
unfolding fix_line_endings
fix-not_mixed content h = elim (Bool-cases (has_mixed_line_endings (regular content))) [
  | inl e ↦ rw e (unmixed-regular (normalize content) (is_mixed-normalize content h))
  | inr e ↦ rw (e, e)
]

-- A text file with mixed line endings, no more CRLF than LF, of which some but not all ended lines
-- end in two carriage returns before their newline, and whose normalized content has no NUL, still has
-- mixed line endings after `fix_line_endings`.
pub fix-stays_mixed :
    (content : Bytes)
    → has_mixed_line_endings (regular content) ≡ true
    → contains_byte (normalize content) 0 ≡ false
    → (count_line_endings content).1 ≤ (count_line_endings content).0
    → 0 < count_double (segments content).ended
    → count_double (segments content).ended
      < (count_line_endings content).0 + (count_line_endings content).1
    → has_mixed_line_endings (fix_line_endings (regular content)) ≡ true
unfolding fix_line_endings
fix-stays_mixed content h z le some_double not_all =
    rw h (still_mixed (normalize content) z (ground (arith, normalize-to_lf content le)))
  where
    still_mixed :
        (t : Bytes)
        → contains_byte t 0 ≡ false
        → (0 < (count_line_endings t).0) × (0 < (count_line_endings t).1)
        → has_mixed_line_endings (regular t) ≡ true
    still_mixed t e p = ground (arith, e, p)
