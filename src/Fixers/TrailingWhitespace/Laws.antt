-- ===== src/Fixers/TrailingWhitespace/Laws.antt =====
-- src/cli/util/trailing_whitespace.rs: the check and the fix agree.
use hk.Prelude.{
  ℕ, suc, ◌+◌, ◌<◌, ◌≤◌, ◌≡◌, refl, ap, ap₂, sym, ◌∙◌, ◌⊎◌, inl, inr, Bool, true, false, ◌&&◌,
  Option, none, some, List, [], ◌∷◌, ◌++◌, arith, append_assoc, append-nil, Bytes, newline,
  carriage_return, bytes_eq, bytes_eq_refl, bytes_eq→eq, concat, concat-split_inclusive,
  split_inclusive, any, length, length-append, if◌then◌else◌, if_cases, Bool-cases,
}
use hk.Fixers.Suffix.{init, ends_with, trim_step, trim_end, ends_with-init}
use hk.Fixers.TextFile.{Utf8, Read, failed, not_text, text}
use hk.Fixers.TrailingWhitespace.{
  is_blank, Terminator, unterminated, lf, crlf, terminator_text, is_same, Line, line_text, line_of,
  fix_line, is_changed, strip_lines, strip_trailing_whitespace, read_text, has_trailing_whitespace,
  fixed_content,
}

-- Trimming changes nothing, or makes the text shorter.
trim_end-length :
    (p : ℕ → Bool) (s : Bytes) → (trim_end p s ≡ s) ⊎ (length (trim_end p s) < length s)
unfolding trim_end
trim_end-length p [] = inl refl
trim_end-length p (c ∷ s) = step (trim_end p s) (trim_end-length p s)
  where
    step :
        (r : Bytes)
        → (r ≡ s) ⊎ (length r < length s)
        → (trim_step p c r ≡ c ∷ s) ⊎ (length (trim_step p c r) < length (c ∷ s))
    step [] (inl e) =
        if_cases {A = Bytes} (λ t. (t ≡ c ∷ s) ⊎ (length t < length (c ∷ s))) (p c) [] (c ∷ [])
          (λ _. inr (omega arith)) (λ _. inl (ap (λ t. c ∷ t) e))
    step [] (inr lt) =
        if_cases {A = Bytes} (λ t. (t ≡ c ∷ s) ⊎ (length t < length (c ∷ s))) (p c) [] (c ∷ [])
          (λ _. inr (omega arith)) (λ _. inr (omega (arith, lt)))
    step (d ∷ r) (inl e) = inl (ap (λ t. c ∷ t) e)
    step (d ∷ r) (inr lt) = inr (omega (arith, lt))

length-init : (s : Bytes) (b : ℕ) → ends_with s b ≡ true → length s ≡ suc (length (init s))
length-init s b h =
    let e = ap length (ends_with-init s b h) in omega (arith, e, length-append (init s) (b ∷ []))

-- A line as `lines` cuts it: a body that ends in a carriage return has no bare newline after it.
abbrev IsCut : Line → Type 0
IsCut l = is_same l.terminator lf ≡ true → ends_with l.body carriage_return ≡ false

line_of-IsCut : (s : Bytes) → IsCut (line_of s) × (line_text (line_of s) ≡ s)
unfolding line_of
line_of-IsCut s =
    if_cases {A = Line} (λ l. IsCut l × (line_text l ≡ s)) (ends_with s newline) _ _
      (λ e.
        if_cases {A = Line} (λ l. IsCut l × (line_text l ≡ s)) (ends_with (init s) carriage_return)
          _ _
          (λ f. (
            (λ h. absurd (cc)),
            sym (append_assoc (init (init s)) (carriage_return ∷ []) (newline ∷ []))
                ∙ ap (λ t. t ++ newline ∷ []) (ends_with-init (init s) carriage_return f)
                ∙ ends_with-init s newline e,
          ))
          (λ f. ((λ h. f), ends_with-init s newline e)))
      (λ e. ((λ h. absurd (cc)), append-nil s))

trim_end-le : (p : ℕ → Bool) (s : Bytes) → length (trim_end p s) ≤ length s
trim_end-le p s = elim (trim_end-length p s) [
  | inl e ↦ omega (arith, ap length e)
  | inr lt ↦ omega (arith, lt)
]

length-terminator_text : (t : Terminator) → is_same t lf ≡ true → length (terminator_text t) ≡ 1
length-terminator_text unterminated h = absurd (cc)
length-terminator_text lf h = refl
length-terminator_text crlf h = absurd (cc)

length-line_text :
    (l : Line) → length (line_text l) ≡ length l.body + length (terminator_text l.terminator)
length-line_text l = length-append l.body (terminator_text l.terminator)

-- What fixing makes of a line: the line itself, or one with a shorter text.
abbrev Fixed : Line → Line → Type 0
Fixed l r = (r ≡ l) ⊎ (length (line_text r) < length (line_text l))

to_crlf :
    (l : Line)
    → IsCut l
    → is_same l.terminator lf ≡ true
    → ends_with (trim_end is_blank l.body) carriage_return ≡ true
    → Fixed l
        (record { body = trim_end is_blank (init (trim_end is_blank l.body)); terminator = crlf })
to_crlf l h a b = elim (trim_end-length is_blank l.body) [
  | inl e ↦ absurd (ground (arith, h a, sym (ap (λ t. ends_with t carriage_return) e) ∙ b))
  | inr lt ↦ inr (
      omega (
        arith,
        lt,
        length-line_text l,
        length-terminator_text l.terminator a,
        length-append (trim_end is_blank (init (trim_end is_blank l.body))) (terminator_text crlf),
        trim_end-le is_blank (init (trim_end is_blank l.body)),
        length-init (trim_end is_blank l.body) carriage_return b,
      ))
]

trimmed :
    (l : Line) → Fixed l (record { body = trim_end is_blank l.body; terminator = l.terminator })
trimmed l = elim (trim_end-length is_blank l.body) [
  | inl e ↦ inl (ap (λ b. record { body = b; terminator = l.terminator }) e)
  | inr lt ↦ inr (
      omega (
        arith,
        lt,
        length-line_text l,
        length-append (trim_end is_blank l.body) (terminator_text l.terminator),
      ))
]

fix_line-Fixed : (l : Line) → IsCut l → Fixed l (fix_line l)
unfolding fix_line
fix_line-Fixed l h =
    if_cases {A = Line} (Fixed l)
      (is_same l.terminator lf && ends_with (trim_end is_blank l.body) carriage_return) _ _
      (λ e. to_crlf l h (ground (arith, e)) (ground (arith, e))) (λ _. trimmed l)

is_same_refl : (t : Terminator) → is_same t t ≡ true
is_same_refl unterminated = refl
is_same_refl lf = refl
is_same_refl crlf = refl

is_same→eq : (t u : Terminator) → is_same t u ≡ true → t ≡ u
is_same→eq unterminated unterminated h = refl
is_same→eq unterminated lf h = absurd (cc)
is_same→eq unterminated crlf h = absurd (cc)
is_same→eq lf unterminated h = absurd (cc)
is_same→eq lf lf h = refl
is_same→eq lf crlf h = absurd (cc)
is_same→eq crlf unterminated h = absurd (cc)
is_same→eq crlf lf h = absurd (cc)
is_same→eq crlf crlf h = refl

-- A piece that is not changed stays, and one that is changed gets shorter.
piece_cases :
    (s : Bytes)
    → ((is_changed s ≡ false) × (line_text (fix_line (line_of s)) ≡ s))
      ⊎ ((is_changed s ≡ true) × (length (line_text (fix_line (line_of s))) < length s))
unfolding is_changed
piece_cases s =
    let (cut, back) = line_of-IsCut s in
    elim (fix_line-Fixed (line_of s) cut) [
      | inl e ↦
          let b : bytes_eq (fix_line (line_of s)).body (line_of s).body ≡ true =
            ap (λ (l : Line). bytes_eq l.body (line_of s).body) e
            ∙ bytes_eq_refl (line_of s).body in
          let t : is_same (fix_line (line_of s)).terminator (line_of s).terminator ≡ true =
            ap (λ (l : Line). is_same l.terminator (line_of s).terminator) e
            ∙ is_same_refl (line_of s).terminator in
          inl (ground (arith, b, t), ap line_text e ∙ back)
      | inr lt ↦ elim (Bool-cases (is_changed s)) [
        | inl e ↦ inr (e, omega (arith, lt, ap length back))
        | inr e ↦
            let b : bytes_eq (fix_line (line_of s)).body (line_of s).body ≡ true =
              ground (arith, e) in
            let t : is_same (fix_line (line_of s)).terminator (line_of s).terminator ≡ true =
              ground (arith, e) in
            let same : line_text (fix_line (line_of s)) ≡ line_text (line_of s) =
              ap₂ (λ x y. x ++ terminator_text y) (bytes_eq→eq _ _ b) (is_same→eq _ _ t) in
            absurd (omega (arith, lt, ap length same))
      ]
    ]

-- What stripping makes of pieces, and whether one of them is changed.
abbrev Stripped : List Bytes → Type 0
Stripped ls =
    ((any is_changed ls ≡ false) × (strip_lines ls ≡ concat ls))
    ⊎ ((any is_changed ls ≡ true) × (length (strip_lines ls) < length (concat ls)))

strip_lines-Stripped : (ls : List Bytes) → Stripped ls
unfolding strip_lines any concat
strip_lines-Stripped [] = inl (refl, refl)
strip_lines-Stripped (s ∷ ls) = step (piece_cases s) (strip_lines-Stripped ls)
  where
    l₁ :
        length (line_text (fix_line (line_of s)) ++ strip_lines ls)
        ≡ length (line_text (fix_line (line_of s))) + length (strip_lines ls)
    l₁ = length-append (line_text (fix_line (line_of s))) (strip_lines ls)

    l₂ : length (s ++ concat ls) ≡ length s + length (concat ls)
    l₂ = length-append s (concat ls)

    step :
        ((is_changed s ≡ false) × (line_text (fix_line (line_of s)) ≡ s))
          ⊎ ((is_changed s ≡ true) × (length (line_text (fix_line (line_of s))) < length s))
        → Stripped ls
        → Stripped (s ∷ ls)
    step (inl (a, b)) (inl (c, d)) = inl (ground (arith, a, c), ap₂ (λ x y. x ++ y) b d)
    step (inl (a, b)) (inr (c, d)) =
        inr (ground (arith, a, c), omega (arith, l₁, l₂, ap length b, d))
    step (inr (a, b)) (inl (c, d)) =
        inr (ground (arith, a, c), omega (arith, l₁, l₂, b, ap length d))
    step (inr (a, b)) (inr (c, d)) = inr (ground (arith, a, c), omega (arith, l₁, l₂, b, d))

-- A text is changed by `strip_trailing_whitespace` exactly when one of its lines is, and then it gets
-- shorter.
pub strip_trailing_whitespace-changed :
    (s : Bytes)
    → ((any is_changed (split_inclusive s) ≡ false) × (strip_trailing_whitespace s ≡ s))
      ⊎ ((any is_changed (split_inclusive s) ≡ true)
          × (length (strip_trailing_whitespace s) < length s))
unfolding strip_trailing_whitespace
strip_trailing_whitespace-changed s = elim (strip_lines-Stripped (split_inclusive s)) [
  | inl (a, b) ↦ inl (a, b ∙ concat-split_inclusive s)
  | inr (a, b) ↦ inr (a, omega (arith, b, ap length (concat-split_inclusive s)))
]

abbrev pub is_text : Read → Bool
is_text (text s) = true
is_text failed = false
is_text not_text = false

abbrev is_found : Option Bool → Bool
is_found none = false
is_found (some b) = b

is_text-fixed :
    (s : Bytes)
    → is_text (
        if bytes_eq s (strip_trailing_whitespace s)
        then not_text
        else text (strip_trailing_whitespace s))
      ≡ any is_changed (split_inclusive s)
is_text-fixed s = elim (strip_trailing_whitespace-changed s) [
  | inl (a, b) ↦
      let same : bytes_eq s (strip_trailing_whitespace s) ≡ true =
        ap (bytes_eq s) b ∙ bytes_eq_refl s in
      rw same (sym a)
  | inr (a, b) ↦ elim (Bool-cases (bytes_eq s (strip_trailing_whitespace s))) [
    | inl e ↦ absurd (omega (arith, b, ap length (bytes_eq→eq s (strip_trailing_whitespace s) e)))
    | inr e ↦ rw e (sym a)
  ]
]

-- For a file that can be read, `--check` reports the file exactly when `fixed_content` has a new content
-- for it.
pub has_trailing_whitespace-fixed_content :
    (from_utf8 : Bytes → Utf8) (file : Option Bytes) (found : Bool)
    → has_trailing_whitespace from_utf8 file ≡ some found
    → is_text (fixed_content from_utf8 file) ≡ found
unfolding has_trailing_whitespace fixed_content
has_trailing_whitespace-fixed_content u file found h = go (read_text u file) h
  where
    go :
        (r : Read)
        → elim r [
          | failed ↦ none
          | not_text ↦ some false
          | text s ↦ some (any is_changed (split_inclusive s))
        ]
          ≡ some found
        → is_text (elim r [
          | failed ↦ failed
          | not_text ↦ not_text
          | text s ↦
              if bytes_eq s (strip_trailing_whitespace s)
              then not_text
              else text (strip_trailing_whitespace s)
        ])
          ≡ found
    go failed h = absurd (cc)
    go not_text h = ap is_found h
    go (text s) h = is_text-fixed s ∙ ap is_found h
