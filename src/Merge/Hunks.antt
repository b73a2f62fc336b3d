-- ===== src/Merge/Hunks.antt =====
-- src/merge.rs: what a list of hunks means. `patched` applies hunks to lines with no search order
-- in it, and `InOrder` says that hunks lie within the base, in order and apart.
use hk.Prelude.{
  ℕ, zero, suc, ◌+◌, ◌-◌, ◌≤◌, ◌≡◌, refl, List, [], ◌∷◌, ◌++◌, Bytes, arith, take, drop,
}
use hk.Merge.{Hunk}

-- The lines `rest`, which stand from index `i` of the base on, with the hunks applied.
unfoldable pub patched : ℕ → List Bytes → List Hunk → List Bytes
patched i rest [] = rest
patched i rest (h ∷ hs) =
    take (h.start - i) rest ++ (h.lines ++ patched h.end (drop (h.end - i) rest) hs)

-- Hunks from index `p` on, within `n` lines, with at least `gap` unchanged lines between them.
abbrev pub InOrder : ℕ → ℕ → ℕ → List Hunk → Type 0
InOrder gap p n [] = Unit
InOrder gap p n (h ∷ hs) =
    (p ≤ h.start) × (h.start ≤ h.end) × (h.end ≤ n) × InOrder gap (h.end + gap) n hs

pub InOrder-weaken :
    (gap p q n : ℕ) (hs : List Hunk) → q ≤ p → InOrder gap p n hs → InOrder gap q n hs
InOrder-weaken gap p q n [] le o = tt
InOrder-weaken gap p q n (h ∷ hs) le (a, b, c, d) = (omega arith, b, c, d)

pub drop-drop : (i e : ℕ) (xs : List Bytes) → i ≤ e → drop (e - i) (drop i xs) ≡ drop e xs
drop-drop zero e xs le = let eq : e - 0 ≡ e = omega arith in rw eq
drop-drop (suc i) zero xs le = absurd (omega arith)
drop-drop (suc i) (suc e) [] le = drop-nil (suc e - suc i)
  where
    drop-nil : (k : ℕ) → drop {A = Bytes} k [] ≡ []
    drop-nil zero = refl
    drop-nil (suc k) = refl
drop-drop (suc i) (suc e) (x ∷ xs) le =
    let eq : suc e - suc i ≡ e - i = omega arith in rw eq (drop-drop i e xs (omega arith))

-- A line in front of every hunk stays.
pub patched-cons :
    (gap i n : ℕ) (x : Bytes) (xs : List Bytes) (hs : List Hunk)
    → InOrder gap (i + 1) n hs
    → patched i (x ∷ xs) hs ≡ x ∷ patched (i + 1) xs hs
unfolding patched
patched-cons gap i n x xs [] o = refl
patched-cons gap i n x xs (h ∷ hs) (a, b, c, d) =
    let s : h.start - i ≡ suc (h.start - (i + 1)) = omega arith in
    let e : h.end - i ≡ suc (h.end - (i + 1)) = omega arith in rw (s, e)

pub InOrder-gap : (p n : ℕ) (hs : List Hunk) → InOrder 1 p n hs → InOrder 0 p n hs
InOrder-gap p n [] o = tt
InOrder-gap p n (h ∷ hs) (a, b, c, d) = (
  a,
  b,
  c,
  InOrder-weaken 0 (h.end + 1) (h.end + 0) n hs (omega arith) (InOrder-gap (h.end + 1) n hs d),
)
