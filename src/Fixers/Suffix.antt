-- ===== src/Fixers/Suffix.antt =====
-- The standard library's functions on the end of a text, as the fixers of src/cli/util call them.
use hk.Prelude.{
  Option-cases, ==_iff, ℕ, ◌≡◌, ◌∙◌, inl, inr, true, refl, ap, Bool, false, Option, none, some, [],
  ◌∷◌, ◌++◌, arith, Bytes, ◌==◌, if◌then◌else◌,
}

-- `[T]::last`.
unfoldable pub last : Bytes → Option ℕ
last [] = none
last (c ∷ []) = some c
last (c ∷ d ∷ s) = last (d ∷ s)

-- The text without its last byte.
unfoldable pub init : Bytes → Bytes
init [] = []
init (c ∷ []) = []
init (c ∷ d ∷ s) = c ∷ init (d ∷ s)

-- Whether the text ends with the byte.
unfoldable pub ends_with : Bytes → ℕ → Bool
unfolding last
ends_with s b = elim (last s) [ none ↦ false | some c ↦ c == b ]

-- `strip_suffix` of one byte, with `unwrap_or` of the text itself.
unfoldable pub strip_byte : Bytes → ℕ → Bytes
unfolding ends_with init
strip_byte s b = if ends_with s b then init s else s

-- `trim_end_matches` of a class of bytes.
abbrev pub trim_step : (ℕ → Bool) → ℕ → Bytes → Bytes
trim_step p c [] = if p c then [] else c ∷ []
trim_step p c (d ∷ r) = c ∷ d ∷ r

unfoldable pub trim_end : (ℕ → Bool) → Bytes → Bytes
trim_end p [] = []
trim_end p (c ∷ s) = trim_step p c (trim_end p s)

module _ (b : ℕ) where
  pub last-append_byte : (s : Bytes) → last (s ++ b ∷ []) ≡ some b
  unfolding last
  last-append_byte [] = refl
  last-append_byte (c ∷ []) = refl
  last-append_byte (c ∷ d ∷ s) = last-append_byte (d ∷ s)

  pub init-append_byte : (s : Bytes) → init (s ++ b ∷ []) ≡ s
  unfolding init
  init-append_byte [] = refl
  init-append_byte (c ∷ []) = refl
  init-append_byte (c ∷ d ∷ s) = ap (λ t. c ∷ t) (init-append_byte (d ∷ s))

pub init-append-last : (s : Bytes) (b : ℕ) → last s ≡ some b → init s ++ b ∷ [] ≡ s
unfolding last init
init-append-last [] b h = cc
init-append-last (c ∷ []) b h = cc
init-append-last (c ∷ d ∷ s) b h = ap (λ t. c ∷ t) (init-append-last (d ∷ s) b h)

trim_step-last :
    (p : ℕ → Bool) (d : ℕ) (r : Bytes) (c : ℕ)
    → (last r ≡ some c → p c ≡ false)
    → last (trim_step p d r) ≡ some c
    → p c ≡ false
unfolding last
trim_step-last p d [] c ih h = ground arith
trim_step-last p d (e ∷ r) c ih h = ih h

-- What is left after `trim_end` does not end in a byte of the class.
pub trim_end-last : (p : ℕ → Bool) (s : Bytes) (c : ℕ) → last (trim_end p s) ≡ some c → p c ≡ false
unfolding trim_end
trim_end-last p [] c h = unfold last in cc
trim_end-last p (d ∷ s) c h = trim_step-last p d (trim_end p s) c (trim_end-last p s c) h

trim_step_self :
    (p : ℕ → Bool) (d : ℕ) (r : Bytes)
    → ((c : ℕ) → last (d ∷ r) ≡ some c → p c ≡ false)
    → trim_step p d r ≡ d ∷ r
unfolding last
trim_step_self p d [] h = rw (h d refl)
trim_step_self p d (e ∷ r) h = refl

-- A text that does not end in a byte of the class stays.
pub trim_end_self :
    (p : ℕ → Bool) (s : Bytes) → ((c : ℕ) → last s ≡ some c → p c ≡ false) → trim_end p s ≡ s
unfolding trim_end last
trim_end_self p [] h = refl
trim_end_self p (d ∷ []) h = trim_step_self p d [] h
trim_end_self p (d ∷ e ∷ s) h = ap (trim_step p d) (trim_end_self p (e ∷ s) h)

-- A text that ends with a byte is its beginning and that byte.
pub ends_with-init : (s : Bytes) (b : ℕ) → ends_with s b ≡ true → init s ++ b ∷ [] ≡ s
unfolding ends_with
ends_with-init s b h = elim (Option-cases (last s)) [
  | inl e ↦ absurd (ground (arith, e, h))
  | inr (c, e) ↦
      let same : (c == b) ≡ true = ground (arith, e, h) in
      init-append-last s b (e ∙ ap some ((==_iff c b).0 same))
]

pub ends_with-append_byte : (s : Bytes) (b : ℕ) → ends_with (s ++ b ∷ []) b ≡ true
unfolding ends_with
ends_with-append_byte s b = rw (last-append_byte b s, ends_with) (ground arith)
