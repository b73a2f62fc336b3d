-- ===== src/StageQueue/Paths.antt =====
-- src/stage_queue.rs: every file that a caller asks for is in the queue after its first section.
use hk.Prelude.{◌≡◌, refl, true, List, [], ◌∷◌, ◌++◌, arith, if_cases, Bool-cases, inl, inr}
use hk.StageQueue.{PathEq, contains, insert, extend, retain_new}

module _ {P : Type 0} (e : PathEq P) where
  -- Every path of the first list is in the second.
  abbrev pub AllIn : List P → List P → Type 0
  AllIn [] set = Unit
  AllIn (p ∷ ps) set = (contains e set p ≡ true) × AllIn ps set

  contains-append :
      (xs ys : List P) (p : P) → contains e xs p ≡ true → contains e (xs ++ ys) p ≡ true
  unfolding contains
  contains-append [] ys p h = cc
  contains-append (x ∷ xs) ys p h = ground (arith, contains-append xs ys p)

  contains-append_last : (xs : List P) (p : P) → contains e (xs ++ p ∷ []) p ≡ true
  unfolding contains
  contains-append_last [] p = ground (arith, (e.same_iff p p).1 refl)
  contains-append_last (x ∷ xs) p = ground (arith, contains-append_last xs p)

  pub contains-extend :
      (set ps : List P) (p : P) → contains e set p ≡ true → contains e (extend e set ps) p ≡ true
  unfolding extend
  contains-extend set [] p h = h
  contains-extend set (q ∷ qs) p h = contains-extend (insert e set q) qs p (
      if_cases (λ s. contains e s p ≡ true) (contains e set q) set (set ++ q ∷ []) (λ _. h)
        (λ _. contains-append set (q ∷ []) p h))

  contains-insert_self : (set : List P) (p : P) → contains e (insert e set p) p ≡ true
  contains-insert_self set p =
      if_cases (λ s. contains e s p ≡ true) (contains e set p) set (set ++ p ∷ []) (λ h. h)
        (λ _. contains-append_last set p)

  contains-insert :
      (set : List P) (q p : P) → contains e set p ≡ true → contains e (insert e set q) p ≡ true
  contains-insert set q p h =
      if_cases (λ s. contains e s p ≡ true) (contains e set q) set (set ++ q ∷ []) (λ _. h)
        (λ _. contains-append set (q ∷ []) p h)

  AllIn-queue_from :
      (old set ps : List P)
      → ((p : P) → contains e old p ≡ true → contains e set p ≡ true)
      → AllIn ps (extend e set (retain_new e old ps))
  unfolding retain_new extend
  AllIn-queue_from old set [] h = tt
  AllIn-queue_from old set (p ∷ ps) h = elim (Bool-cases (contains e old p)) [
    | inl q ↦
        rw q (contains-extend set (retain_new e old ps) p (h p q), AllIn-queue_from old set ps h)
    | inr q ↦ rw q (
        (
          contains-extend (insert e set p) (retain_new e old ps) p (contains-insert_self set p),
          AllIn-queue_from old (insert e set p) ps (λ r k. contains-insert set p r (h r k)),
        ))
  ]

  pub AllIn-queue : (set ps : List P) → AllIn ps (extend e set (retain_new e set ps))
  AllIn-queue set ps = AllIn-queue_from set set ps (λ p h. h)

  pub AllIn-extend : (ps set qs : List P) → AllIn ps set → AllIn ps (extend e set qs)
  AllIn-extend [] set qs a = tt
  AllIn-extend (p ∷ ps) set qs (a, b) = (contains-extend set qs p a, AllIn-extend ps set qs b)
