-- ===== src/Fixers/EndOfFile/Laws.antt =====
-- src/cli/util/end_of_file_fixer.rs: what a fixed file ends with, and that four bytes tell.
use hk.Prelude.{
  ℕ, suc, ◌-◌, ◌≡◌, refl, ap, sym, ◌∙◌, inl, inr, Bool, true, false, not, some, [], ◌∷◌, ◌++◌,
  Bytes, arith, append_assoc, newline, carriage_return, length, ltb, if◌then◌else◌, if_cases,
  Option-cases,
}
use hk.Fixers.Suffix.{
  last, ends_with, strip_byte, trim_end, last-append_byte, init-append_byte, trim_end-last,
}
use hk.Fixers.TextFile.{Utf8, failed, not_text, text, read_text_probe, read_rest_to_string}
use hk.Fixers.EndOfFile.{
  is_line_end, ends_in_line_end, ends_properly, tail_bytes, crlf, count_newlines, count_pairs,
  dominant_terminator, normalize_ending, open_if_improper, improper_content, fixed_content,
}

ends_properly-cons :
    (a b c d : ℕ) (s : Bytes) → ends_properly (a ∷ b ∷ c ∷ d ∷ s) ≡ ends_properly (b ∷ c ∷ d ∷ s)
unfolding ends_properly
ends_properly-cons a b c d s = ground arith

tail_bytes-cons :
    (a b c d e : ℕ) (s : Bytes)
    → tail_bytes (a ∷ b ∷ c ∷ d ∷ e ∷ s) ≡ tail_bytes (b ∷ c ∷ d ∷ e ∷ s)
unfolding tail_bytes
tail_bytes-cons a b c d e s =
    let k : length (a ∷ b ∷ c ∷ d ∷ e ∷ s) - 4 ≡ suc (length (b ∷ c ∷ d ∷ e ∷ s) - 4) =
      omega arith in
    rw k

-- The last four bytes decide whether the whole content ends with exactly one terminator.
pub ends_properly-tail_bytes :
    (content : Bytes) → ends_properly (tail_bytes content) ≡ ends_properly content
unfolding tail_bytes
ends_properly-tail_bytes [] = refl
ends_properly-tail_bytes (a ∷ []) = refl
ends_properly-tail_bytes (a ∷ b ∷ []) = refl
ends_properly-tail_bytes (a ∷ b ∷ c ∷ []) = refl
ends_properly-tail_bytes (a ∷ b ∷ c ∷ d ∷ []) = refl
ends_properly-tail_bytes (a ∷ b ∷ c ∷ d ∷ e ∷ s) =
    ap ends_properly (tail_bytes-cons a b c d e s)
    ∙ ends_properly-tail_bytes (b ∷ c ∷ d ∷ e ∷ s)
    ∙ sym (ends_properly-cons a b c d (e ∷ s))

strip_byte-bare :
    (body : Bytes)
    → ((c : ℕ) → last body ≡ some c → is_line_end c ≡ false)
    → not (ends_in_line_end (strip_byte body carriage_return)) ≡ true
unfolding strip_byte ends_with ends_in_line_end
strip_byte-bare body h = elim (Option-cases (last body)) [
  | inl e ↦ ground (arith, e)
  | inr (c, e) ↦ ground (arith, h c e, e)
]

strip_byte-append_byte : (body : Bytes) (b : ℕ) → strip_byte (body ++ b ∷ []) b ≡ body
unfolding strip_byte ends_with
strip_byte-append_byte body b = ground (arith, last-append_byte b body, init-append_byte b body)

ends_properly-append_byte :
    (s : Bytes)
    → ends_properly (s ++ newline ∷ []) ≡ not (ends_in_line_end (strip_byte s carriage_return))
unfolding ends_properly
ends_properly-append_byte s =
    rw (ends_properly, last-append_byte newline s, init-append_byte newline s) refl

bare-not_end :
    (body : Bytes)
    → ((c : ℕ) → last body ≡ some c → is_line_end c ≡ false)
    → not (ends_in_line_end body) ≡ true
unfolding ends_in_line_end
bare-not_end body h = elim (Option-cases (last body)) [
  | inl e ↦ ground (arith, e)
  | inr (c, e) ↦ ground (arith, h c e, e)
]

ends_properly-newline :
    (body : Bytes)
    → ((c : ℕ) → last body ≡ some c → is_line_end c ≡ false)
    → ends_properly (body ++ newline ∷ []) ≡ true
ends_properly-newline body h = ends_properly-append_byte body ∙ strip_byte-bare body h

ends_properly-crlf :
    (body : Bytes)
    → ((c : ℕ) → last body ≡ some c → is_line_end c ≡ false)
    → ends_properly (body ++ crlf) ≡ true
ends_properly-crlf body h =
    ap ends_properly (sym (append_assoc body (carriage_return ∷ []) (newline ∷ [])))
    ∙ ends_properly-append_byte (body ++ carriage_return ∷ [])
    ∙ ap (λ t. not (ends_in_line_end t)) (strip_byte-append_byte body carriage_return)
    ∙ bare-not_end body h

-- A text that `normalize_ending` made ends with exactly one terminator.
pub ends_properly-normalize_ending : (s : Bytes) → ends_properly (normalize_ending s) ≡ true
unfolding normalize_ending dominant_terminator
ends_properly-normalize_ending s =
    if_cases {A = Bytes} (λ t. ends_properly (trim_end is_line_end s ++ t) ≡ true)
      (ltb (count_newlines s - count_pairs s) (count_pairs s)) crlf (newline ∷ [])
      (λ _. ends_properly-crlf (trim_end is_line_end s) (trim_end-last is_line_end s))
      (λ _. ends_properly-newline (trim_end is_line_end s) (trim_end-last is_line_end s))

open_if_improper-proper :
    (u : Bytes → Utf8) (s : Bytes) → ends_properly s ≡ true → open_if_improper u s ≡ false
unfolding open_if_improper
open_if_improper-proper u [] h = refl
open_if_improper-proper u (c ∷ s) h =
    let e : ends_properly (tail_bytes (c ∷ s)) ≡ true = ends_properly-tail_bytes (c ∷ s) ∙ h in
    rw e (
      if_cases {A = Bool} (λ b. b ≡ false) (read_text_probe u (c ∷ s)) false false (λ _. refl)
        (λ _. refl))

-- The fixer changes no file that it has fixed.
pub fixed_content-normalize_ending :
    (from_utf8 : Bytes → Utf8) (s : Bytes) → fixed_content from_utf8 (normalize_ending s) ≡ not_text
unfolding fixed_content improper_content
fixed_content-normalize_ending u s =
    ap
      (λ b. elim (if b then read_rest_to_string u (normalize_ending s) else not_text) [
        | failed ↦ failed
        | not_text ↦ not_text
        | text t ↦ text (normalize_ending t)
      ])
      (open_if_improper-proper u (normalize_ending s) (ends_properly-normalize_ending s))
