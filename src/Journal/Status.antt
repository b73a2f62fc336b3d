-- ===== src/Journal/Status.antt =====
-- src/stash_journal.rs, `status_has_worktree_changes`: the records of `git status --porcelain=v1 -z`,
-- whose two status letters are ASCII.
use hk.Prelude.{
  ℕ, ◌≡◌, refl, ap, ap₂, ◌∙◌, Bool, true, false, ◌&&◌, ◌||◌, not, List, [], ◌∷◌, ◌++◌, arith, Bytes,
  contains_byte, cons_head, any, filter, length, leb, ◌==◌, if◌then◌else◌,
}

-- `split('\0')`.
unfoldable pub split_all : Bytes → List Bytes
split_all [] = [] ∷ []
split_all (c ∷ s) = let rest = split_all s in if c == 0 then [] ∷ rest else cons_head c rest

abbrev pub is_long : Bytes → Bool
is_long r = leb 3 (length r)

-- Of the letters `x` and `y`: untracked, unmerged, or changed in the worktree.
abbrev pub is_worktree_change : ℕ → ℕ → Bool
is_worktree_change x y =
    x == 63
    || (x == 85 || (y == 85 || ((x == 65 && y == 65) || ((x == 68 && y == 68) || not (y == 32)))))

abbrev pub lists_change : Bytes → Bool
lists_change [] = is_worktree_change 32 32
lists_change (x ∷ []) = is_worktree_change x 32
lists_change (x ∷ y ∷ s) = is_worktree_change x y

unfoldable pub status_has_worktree_changes : Bytes → Bool
unfolding split_all filter any
status_has_worktree_changes porcelain = any lists_change (filter is_long (split_all porcelain))

-- What git says of a path, in the index or in the worktree.
pub data Letter : Type 0 where
  unmodified : Letter
  modified : Letter
  type_changed : Letter
  added : Letter
  deleted : Letter
  renamed : Letter
  copied : Letter
  unmerged : Letter
  untracked : Letter

abbrev pub printed_letter : Letter → ℕ
printed_letter unmodified = 32
printed_letter modified = 77
printed_letter type_changed = 84
printed_letter added = 65
printed_letter deleted = 68
printed_letter renamed = 82
printed_letter copied = 67
printed_letter unmerged = 85
printed_letter untracked = 63

-- A record as git prints it: two letters, a space and the path.
pub record StatusEntry : Type 0 where
  pub index : Letter
  pub worktree : Letter
  pub path : Bytes

abbrev pub entry_text : StatusEntry → Bytes
entry_text e = printed_letter e.index ∷ printed_letter e.worktree ∷ 32 ∷ e.path

abbrev pub printed : List StatusEntry → Bytes
printed [] = []
printed (e ∷ es) = entry_text e ++ 0 ∷ printed es

abbrev pub AllPlain : List StatusEntry → Type 0
AllPlain [] = Unit
AllPlain (e ∷ es) = (contains_byte (entry_text e) 0 ≡ false) × AllPlain es

-- Whether what the index has of a path is for the user to settle in the worktree.
abbrev pub is_open : Letter → Bool
is_open unmodified = false
is_open modified = false
is_open type_changed = false
is_open added = false
is_open deleted = false
is_open renamed = false
is_open copied = false
is_open unmerged = true
is_open untracked = true

abbrev pub is_unmodified : Letter → Bool
is_unmodified unmodified = true
is_unmodified modified = false
is_unmodified type_changed = false
is_unmodified added = false
is_unmodified deleted = false
is_unmodified renamed = false
is_unmodified copied = false
is_unmodified unmerged = false
is_unmodified untracked = false

abbrev pub is_dirty : StatusEntry → Bool
is_dirty e = is_open e.index || not (is_unmodified e.worktree)

is_open-printed : (l : Letter) → (printed_letter l == 63 || printed_letter l == 85) ≡ is_open l
is_open-printed unmodified = refl
is_open-printed modified = refl
is_open-printed type_changed = refl
is_open-printed added = refl
is_open-printed deleted = refl
is_open-printed renamed = refl
is_open-printed copied = refl
is_open-printed unmerged = refl
is_open-printed untracked = refl

is_unmodified-printed : (l : Letter) → (printed_letter l == 32) ≡ is_unmodified l
is_unmodified-printed unmodified = refl
is_unmodified-printed modified = refl
is_unmodified-printed type_changed = refl
is_unmodified-printed added = refl
is_unmodified-printed deleted = refl
is_unmodified-printed renamed = refl
is_unmodified-printed copied = refl
is_unmodified-printed unmerged = refl
is_unmodified-printed untracked = refl

-- The tests of the two letters come down to three.
is_worktree_change-eq : (x y : ℕ) → is_worktree_change x y ≡ ((x == 63 || x == 85) || not (y == 32))
is_worktree_change-eq x y = ground arith

is_worktree_change-printed :
    (e : StatusEntry)
    → is_worktree_change (printed_letter e.index) (printed_letter e.worktree) ≡ is_dirty e
is_worktree_change-printed e =
    is_worktree_change-eq (printed_letter e.index) (printed_letter e.worktree)
    ∙ ap₂ (λ a b. a || not b) (is_open-printed e.index) (is_unmodified-printed e.worktree)

split_all-record :
    (r s : Bytes) → contains_byte r 0 ≡ false → split_all (r ++ 0 ∷ s) ≡ r ∷ split_all s
unfolding split_all contains_byte
split_all-record [] s h = refl
split_all-record (c ∷ r) s h = ground (arith, split_all-record r s)

-- For records without a NUL in them, `status_has_worktree_changes` of their print says whether one of
-- them is untracked or unmerged, or is not unmodified in the worktree.
pub status_has_worktree_changes-printed :
    (es : List StatusEntry)
    → AllPlain es
    → status_has_worktree_changes (printed es) ≡ any is_dirty es
unfolding status_has_worktree_changes any filter split_all
status_has_worktree_changes-printed [] h = refl
status_has_worktree_changes-printed (e ∷ es) (h, hs) =
    let ih = status_has_worktree_changes-printed es hs in
    let long : is_long (entry_text e) ≡ true = ground arith in
    ap (λ ls. any lists_change (filter is_long ls)) (split_all-record (entry_text e) (printed es) h)
    ∙ ap
        (λ b. any lists_change (
          if b
          then entry_text e ∷ filter is_long (split_all (printed es))
          else filter is_long (split_all (printed es))))
        long
    ∙ ap₂ (λ a b. a || b) (is_worktree_change-printed e) ih
