-- ===== src/Sharing/Even.antt =====
-- src/step/job_builder.rs: the batches that `split_evenly` makes.
use native.Mathlib.Nat.{mod-lt, div-add-mod'}
use hk.Prelude.{
  ℕ, zero, suc, ◌+◌, ◌-◌, ◌*◌, ◌/◌, ◌%◌, ◌≤◌, ◌<◌, ◌≡◌, refl, ap, ◌∙◌, ◌⊎◌, inl, inr, min, max,
  List, [], ◌∷◌, ◌++◌, arith, length, length-take, length-drop, take, drop, take-append-drop, ltb,
  if◌then◌else◌, Bool-cases,
}
use hk.Sharing.{split_rest, split_evenly}

-- The size of the next batch, and what it leaves for the others.
abbrev Sized : ℕ → ℕ → ℕ → ℕ → ℕ → ℕ → Type 0
Sized base extra i n len size =
    (size ≤ len)
    × ((len - size ≡ n * base + (extra - suc i))
        × ((extra - suc i ≤ n) × ((size ≡ base) ⊎ (size ≡ suc base))))

next-Sized :
    (base extra i n len : ℕ)
    → len ≡ suc n * base + (extra - i)
    → extra - i ≤ suc n
    → Sized base extra i n len (base + (if ltb i extra then 1 else 0))
next-Sized base extra i n len h k = elim (Bool-cases (ltb i extra)) [
  | inl e ↦ rw e (
      let lt : i < extra = ground (arith, e) in
      (omega (arith, h, lt), (omega (arith, h, lt), (omega (arith, k, lt), inr (omega arith)))))
  | inr e ↦ rw e (
      let le : extra ≤ i = ground (arith, e) in
      (omega (arith, h), (omega (arith, h, le), (omega (arith, k, le), inl (omega arith)))))
]

quotient_positive : (q r n len : ℕ) → q * n + r ≡ len → r < n → n ≤ len → 0 < q
quotient_positive zero r n len h a b = absurd (omega (arith, h, a, b))
quotient_positive (suc q) r n len h a b = omega arith

module _ {ℓ} {A : Type ℓ} where
  abbrev pub joined : List (List A) → List A
  joined [] = []
  joined (b ∷ bs) = b ++ joined bs

  -- Batches of the one size or of one file more.
  abbrev pub AllNear : ℕ → List (List A) → Type 0
  AllNear base [] = Unit
  AllNear base (b ∷ bs) = ((length b ≡ base) ⊎ (length b ≡ suc base)) × AllNear base bs

  abbrev Split : ℕ → ℕ → List A → List (List A) → Type ℓ
  Split base n files bs = (joined bs ≡ files) × ((length bs ≡ n) × AllNear base bs)

  Split-cons :
      (base n : ℕ) (files : List A) (size : ℕ) (r : List (List A))
      → size ≤ length files
      → (size ≡ base) ⊎ (size ≡ suc base)
      → Split base n (drop size files) r
      → Split base (suc n) files (take size files ∷ r)
  Split-cons base n files size r le near (a, (b, c)) =
      let e : length (take size files) ≡ size = omega (arith, length-take size files, le) in
      (
        ap (λ t. take size files ++ t) a ∙ take-append-drop size files,
        (ap suc b, (elim near [ inl v ↦ inl (e ∙ v) | inr v ↦ inr (e ∙ v) ], c)),
      )

  split_rest-Split :
      (base extra i n : ℕ) (files : List A)
      → length files ≡ n * base + (extra - i)
      → extra - i ≤ n
      → Split base n files (split_rest base extra i n files)
  unfolding split_rest
  split_rest-Split base extra i zero [] h k = (refl, (refl, tt))
  split_rest-Split base extra i zero (f ∷ fs) h k = absurd (omega (arith, h, k))
  split_rest-Split base extra i (suc n) files h k =
      let (a, (b, (c, d))) = next-Sized base extra i n (length files) h k in
      Split-cons base n files (base + (if ltb i extra then 1 else 0)) _ a d (
        split_rest-Split base extra (suc i) n (drop (base + (if ltb i extra then 1 else 0)) files)
          (length-drop (base + (if ltb i extra then 1 else 0)) files ∙ b) c)

  -- The batches are the files in order, as many as `count` but at least one and no more than the
  -- files, and their sizes differ by at most one: each has one of two sizes that follow each other.
  pub split_evenly-Split :
      (f : A) (fs : List A) (count : ℕ)
      → (joined (split_evenly (f ∷ fs) count) ≡ f ∷ fs)
        × ((length (split_evenly (f ∷ fs) count) ≡ min (max count 1) (length (f ∷ fs)))
            × ((0 < length (f ∷ fs) / min (max count 1) (length (f ∷ fs)))
                × AllNear
                    (length (f ∷ fs) / min (max count 1) (length (f ∷ fs)))
                    (split_evenly (f ∷ fs) count)))
  unfolding split_evenly
  split_evenly-Split f fs count =
      let n = min (max count 1) (suc (length fs)) in
      let positive : 0 < n = omega arith in
      let (a, (b, c)) =
        split_rest-Split (suc (length fs) / n) (suc (length fs) % n) 0 n (f ∷ fs)
          (omega (arith, div-add-mod' (suc (length fs)) n))
          (omega (arith, mod-lt (suc (length fs)) positive)) in
      (
        a,
        (
          b,
          (
            quotient_positive (suc (length fs) / n) (suc (length fs) % n) n (suc (length fs))
                (div-add-mod' (suc (length fs)) n) (mod-lt (suc (length fs)) positive)
                (omega arith),
            c,
          ),
        ),
      )
