-- ===== src/Batching/Search.antt =====
-- src/step/batching.rs: the binary search for the size of a batch.
use hk.Prelude.{
  ℕ, zero, suc, ◌+◌, ◌-◌, ◌/◌, ◌<◌, ◌≤◌, ◌≡◌, ap, subst, ◌∙◌, ◌⊎◌, inl, inr, Bool, true, false,
  arith, ltb, ltb→lt, if_cases, Bool-cases,
}
use hk.Batching.{search}

halfway : (low high : ℕ) → low < high → (low < (low + high + 1) / 2) × ((low + high + 1) / 2 ≤ high)
halfway low high h = (omega arith, omega arith)

-- What the search has found between the two bounds: a count that passes the test, next to one that
-- does not or at the end of the range.
abbrev pub Found : (ℕ → Bool) → ℕ → ℕ → Type 0
Found p n r = (p r ≡ true) × ((r ≡ n) ⊎ (p (suc r) ≡ false))

abbrev pub Bounds : (ℕ → Bool) → ℕ → ℕ → ℕ → ℕ → Type 0
Bounds p n fuel low high =
    (p low ≡ true) × (((high ≡ n) ⊎ (p (suc high) ≡ false)) × ((low ≤ high) × (high ≤ low + fuel)))

abbrev pub Searched : (ℕ → Bool) → ℕ → ℕ → ℕ → ℕ → Type 0
Searched p n low high r = Found p n r × ((low ≤ r) × (r ≤ high))

Bounds-above :
    (fuel : ℕ) (p : ℕ → Bool) (low high n : ℕ)
    → Bounds p n (suc fuel) low high
    → low < high
    → p ((low + high + 1) / 2) ≡ true
    → Bounds p n fuel ((low + high + 1) / 2) high
Bounds-above fuel p low high n (a, (b, (c, d))) lt passes =
    (passes, (b, ((halfway low high lt).1, omega (arith, halfway low high lt, d))))

Bounds-below :
    (fuel : ℕ) (p : ℕ → Bool) (low high n : ℕ)
    → Bounds p n (suc fuel) low high
    → low < high
    → p ((low + high + 1) / 2) ≡ false
    → Bounds p n fuel low ((low + high + 1) / 2 - 1)
Bounds-below fuel p low high n (a, (b, (c, d))) lt fails =
    let e : suc ((low + high + 1) / 2 - 1) ≡ (low + high + 1) / 2 =
      omega (arith, halfway low high lt) in
    (
      a,
      (
        inr (ap p e ∙ fails),
        (omega (arith, halfway low high lt), omega (arith, halfway low high lt, d)),
      ),
    )

Searched-above :
    (p : ℕ → Bool) (n low high mid r : ℕ)
    → low < mid
    → Searched p n mid high r
    → Searched p n low high r
Searched-above p n low high mid r h (x, (y, z)) = (x, (omega (arith, h, y), z))

Searched-below :
    (p : ℕ → Bool) (n low high mid r : ℕ)
    → mid ≤ high
    → Searched p n low (mid - 1) r
    → Searched p n low high r
Searched-below p n low high mid r h (x, (y, z)) = (x, (y, omega (arith, h, z)))

-- If the lower bound passes the test, the upper one is the end `n` or is followed by a count that does
-- not pass, and there is fuel for the distance between them, the search ends between the bounds at a
-- count that passes the test and is the end or is followed by one that does not.
pub search-Found :
    (fuel : ℕ) (p : ℕ → Bool) (low high n : ℕ)
    → Bounds p n fuel low high
    → Searched p n low high (search fuel p low high)
unfolding search
search-Found zero p low high n (a, (b, (c, d))) =
    let e : high ≡ low = omega (arith, c, d) in
    ((a, subst (λ k. (k ≡ n) ⊎ (p (suc k) ≡ false)) e b), (omega arith, c))
search-Found (suc fuel) p low high n (a, (b, (c, d))) =
    if_cases {A = ℕ} (Searched p n low high) (ltb low high) _ low
      (λ t.
        let lt = ltb→lt low high t in
        elim (Bool-cases (p ((low + high + 1) / 2))) [
          | inl passes ↦ rw passes (
              Searched-above p n low high _ _ (halfway low high lt).0 (
                search-Found fuel p ((low + high + 1) / 2) high n
                  (Bounds-above fuel p low high n (a, (b, (c, d))) lt passes)))
          | inr fails ↦ rw fails (
              Searched-below p n low high _ _ (halfway low high lt).1 (
                search-Found fuel p low ((low + high + 1) / 2 - 1) n
                  (Bounds-below fuel p low high n (a, (b, (c, d))) lt fails)))
        ])
      λ le.
        let e : high ≡ low = ground (arith, c, le) in
        ((a, subst (λ k. (k ≡ n) ⊎ (p (suc k) ≡ false)) e b), (omega arith, c))
