-- ===== src/Journal/Recovery.antt =====
-- src/stash_journal.rs: what the recovery of stashed changes guarantees.
use hk.Prelude.{
  ◌≤◌, ◌≡◌, refl, ap, sym, ◌∙◌, subst, ◌⊎◌, inl, inr, Bool, true, false, ◌&&◌, ◌||◌, not, Option,
  none, some, List, [], ◌∷◌, ◌++◌, arith, Bytes, bytes_eq, bytes_eq_refl, bytes_eq→eq, filter, any,
  any-filter, any-append, if◌then◌else◌, ltb, if_cases, Bool-cases, Option-cases,
}
use hk.Journal.{
  StashKind, unstaged, intent_to_add, JournalEntry, Journal, gone, starts_differ, owner, is_commit,
  record_entry, forget, StashRow, Action, discard, restore, report, is_unrecorded, entry_commits,
  commits_of, unrecorded_entries, in_stash, is_pid, message_pid, is_intent_to_add, is_before,
  decided, present_entries, has_commit, count_kind, decide,
}

-- The journal's owner is taken to be gone only if the journal records this host and no process with its
-- pid is running or one that started at another time is; or if it records no host and a running process
-- with its pid started at another time. A journal of another host, or one whose host cannot be compared
-- because this one is not known, is never taken so.
pub owner-gone :
    (j : Journal) (here : Option Bytes) (alive : Bool) (current_start : Option Bytes)
    → owner j here alive current_start ≡ gone
    → (((h : Bytes) × ((here ≡ some h) × (j.owner_host ≡ some h)))
        × ((alive ≡ false) ⊎ (starts_differ j.pid_start current_start ≡ true)))
      ⊎ ((j.owner_host ≡ none)
          × ((alive ≡ true) × (starts_differ j.pid_start current_start ≡ true)))
unfolding owner
owner-gone j here alive current_start h = elim (Option-cases j.owner_host) [
  | inl e ↦ inr (e, (ground arith, ground arith))
  | inr (r, e) ↦ elim (Option-cases here) [
    | inl f ↦ absurd (ground arith)
    | inr (x, f) ↦
        let same : bytes_eq r x ≡ true = ground arith in
        let either : (not alive || starts_differ j.pid_start current_start) ≡ true = ground arith in
        elim (Bool-cases alive) [
          | inl a ↦
              inl ((x, (f, e ∙ ap some (bytes_eq→eq r x same))), inr (ground (arith, either, a)))
          | inr a ↦ inl ((x, (f, e ∙ ap some (bytes_eq→eq r x same))), inl a)
        ]
  ]
]

-- The commits that an action names.
abbrev pub named : Action → List Bytes
named discard = []
named (restore es) = entry_commits es
named (report reason commits) = commits

any-entry_commits :
    (c : Bytes) (es : List JournalEntry) → has_commit (entry_commits es) c ≡ any (is_commit c) es
unfolding any
any-entry_commits c [] = refl
any-entry_commits c (e ∷ es) = rw (any-entry_commits c es) refl

present_commit :
    (j : Journal) (stash : List StashRow) (c : Bytes)
    → any (is_commit c) j.entries ≡ true
    → in_stash stash c ≡ true
    → has_commit (entry_commits (present_entries j stash)) c ≡ true
unfolding present_entries
present_commit j stash c h s =
    any-entry_commits c (present_entries j stash)
    ∙ any-filter (is_commit c) (λ (e : JournalEntry). in_stash stash e.commit) (is_commit c)
        j.entries (λ e p q. p)
        (λ e p. subst (λ d. in_stash stash d ≡ true) (sym (bytes_eq→eq e.commit c p)) s) h

commits_of-any :
    (c : Bytes) (rows : List StashRow)
    → has_commit (commits_of rows) c ≡ any (λ (row : StashRow). bytes_eq row.commit c) rows
unfolding any
commits_of-any c [] = refl
commits_of-any c (row ∷ rows) = rw (commits_of-any c rows) refl

unrecorded_commit :
    (j : Journal) (stash : List StashRow) (c : Bytes)
    → any (λ (row : StashRow). bytes_eq row.commit c && is_unrecorded j row) stash ≡ true
    → has_commit (unrecorded_entries j stash) c ≡ true
unfolding unrecorded_entries
unrecorded_commit j stash c h =
    commits_of-any c (filter (is_unrecorded j) stash)
    ∙ any-filter (λ (row : StashRow). bytes_eq row.commit c && is_unrecorded j row)
        (is_unrecorded j) (λ (row : StashRow). bytes_eq row.commit c) stash
        (λ row p q. ground (arith, p)) (λ row p. ground (arith, p)) h

decided-named :
    (es : List JournalEntry) (us : List Bytes) (clean : Bool) (c : Bytes)
    → (has_commit (entry_commits es) c || has_commit us c) ≡ true
    → has_commit (named (decided es us clean)) c ≡ true
unfolding decided any
decided-named es (u ∷ us) clean c h = any-append (λ d. bytes_eq d c) (entry_commits es) (u ∷ us) ∙ h
decided-named [] [] clean c h = absurd (ground arith)
decided-named (e ∷ es) [] clean c h =
    if_cases {A = Action} (λ a. has_commit (named a) c ≡ true)
      (ltb 1 (count_kind unstaged (e ∷ es)) || ltb 1 (count_kind intent_to_add (e ∷ es))) _ _
      (λ _. known)
      λ _.
        if_cases {A = Action} (λ a. has_commit (named a) c ≡ true) (not clean) _ _ (λ _. known)
          (λ _. known)
  where
    known : has_commit (entry_commits (e ∷ es)) c ≡ true
    known = ground (arith, h)

-- Every commit in the stash that the journal names is named by what `decide` makes of it: it is
-- restored or reported, and the journal is not discarded.
pub decide-names_recorded :
    (j : Journal) (stash : List StashRow) (clean : Bool) (c : Bytes)
    → any (is_commit c) j.entries ≡ true
    → in_stash stash c ≡ true
    → has_commit (named (decide j stash clean)) c ≡ true
unfolding decide
decide-names_recorded j stash clean c h s =
    let k = present_commit j stash c h s in
    decided-named (present_entries j stash) (unrecorded_entries j stash) clean c (ground (arith, k))

-- Every commit in the stash that is unrecorded is named by what `decide` makes of the journal, too.
pub decide-names_unrecorded :
    (j : Journal) (stash : List StashRow) (clean : Bool) (c : Bytes)
    → any (λ (row : StashRow). bytes_eq row.commit c && is_unrecorded j row) stash ≡ true
    → has_commit (named (decide j stash clean)) c ≡ true
unfolding decide
decide-names_unrecorded j stash clean c h =
    let k = unrecorded_commit j stash c h in
    decided-named (present_entries j stash) (unrecorded_entries j stash) clean c (ground (arith, k))

abbrev Restored : List JournalEntry → Bool → List JournalEntry → Type 0
Restored ps clean es =
    (clean ≡ true)
    × ((es ≡ ps) × ((count_kind unstaged ps ≤ 1) × (count_kind intent_to_add ps ≤ 1)))

decided-restore :
    (ps : List JournalEntry) (us : List Bytes) (clean : Bool) (es : List JournalEntry)
    → decided ps us clean ≡ restore es
    → (clean ≡ true)
      × ((us ≡ [])
          × ((es ≡ ps) × ((count_kind unstaged ps ≤ 1) × (count_kind intent_to_add ps ≤ 1))))
unfolding decided
decided-restore ps (u ∷ us) clean es h = absurd (cc)
decided-restore [] [] clean es h = absurd (cc)
decided-restore (p ∷ ps) [] clean es h =
    let (x, y) =
      if_cases {A = Action} (λ a. a ≡ restore es → Restored (p ∷ ps) clean es) crowded _ _
        (λ _ k. absurd (cc))
        (λ few.
          if_cases {A = Action} (λ a. a ≡ restore es → Restored (p ∷ ps) clean es) (not clean) _ _
            (λ _ k. absurd (cc))
            (λ c k. (
              ground (arith, c),
              (sym (ap restored k), (ground (arith, few), ground (arith, few))),
            )))
        h in
    (x, (refl, y))
  where
    crowded : Bool
    crowded = ltb 1 (count_kind unstaged (p ∷ ps)) || ltb 1 (count_kind intent_to_add (p ∷ ps))

    restored : Action → List JournalEntry
    restored (restore xs) = xs
    restored discard = p ∷ ps
    restored (report r cs) = p ∷ ps

-- A filter by commit keeps of each commit all entries or none.
any-filter_commit :
    (p : Bytes → Bool) (c : Bytes) (es : List JournalEntry)
    → any (is_commit c) (filter (λ (e : JournalEntry). p e.commit) es)
      ≡ (any (is_commit c) es && p c)
unfolding any filter
any-filter_commit p c [] = refl
any-filter_commit p c (e ∷ es) = elim (Bool-cases (bytes_eq e.commit c)) [
  | inl k ↦
      let q : p e.commit ≡ p c = ap p (bytes_eq→eq e.commit c k) in
      ground (arith, any-filter_commit p c es, q)
  | inr k ↦ ground (arith, any-filter_commit p c es)
]

commits_of-none :
    (p : StashRow → Bool) (xs ys : List StashRow) (row : StashRow)
    → commits_of (filter p (xs ++ row ∷ ys)) ≡ []
    → p row ≡ false
unfolding filter
commits_of-none p [] ys row h = ground (arith, h)
commits_of-none p (x ∷ xs) ys row h = elim (Bool-cases (p x)) [
  | inl k ↦ absurd (ground (arith, h, k))
  | inr k ↦ commits_of-none p xs ys row (
      ap (λ b. commits_of (if b then x ∷ filter p (xs ++ row ∷ ys) else filter p (xs ++ row ∷ ys)))
        (sym k)
      ∙ h)
]

present_entries-is_commit :
    (j : Journal) (stash : List StashRow) (c : Bytes)
    → any (is_commit c) (present_entries j stash)
      ≡ (any (is_commit c) j.entries && any (λ (r : StashRow). bytes_eq r.commit c) stash)
unfolding present_entries in_stash
present_entries-is_commit j stash c = any-filter_commit (in_stash stash) c j.entries

unrecorded_entries-none :
    (j : Journal) (xs ys : List StashRow) (row : StashRow)
    → unrecorded_entries j (xs ++ row ∷ ys) ≡ []
    → is_unrecorded j row ≡ false
unfolding unrecorded_entries
unrecorded_entries-none j xs ys row h = commits_of-none (is_unrecorded j) xs ys row h

recorded :
    (j : Journal) (row : StashRow)
    → is_unrecorded j row ≡ false
    → ((is_pid (message_pid row.subject) j.pid || is_intent_to_add row.subject) ≡ false)
      ⊎ ((any (λ d. bytes_eq d row.commit) j.stashes_before || any (is_commit row.commit) j.entries)
          ≡ true)
unfolding is_unrecorded is_before
recorded j row h =
    elim (Bool-cases (is_before j row.commit || any (is_commit row.commit) j.entries)) [
      | inl e ↦ inr e
      | inr e ↦ inl (ground arith)
    ]

-- Where `decide` restores, the worktree is clean, a commit is restored if and only if the journal records
-- it and it is in the stash list, at most one of each kind is, and every row of the stash list that hk
-- made for this journal, by the pid in its message or as an intent-to-add entry, was in the list before
-- or is recorded in the journal.
pub decide-restore :
    (j : Journal) (xs ys : List StashRow) (row : StashRow) (clean : Bool) (es : List JournalEntry)
    (c : Bytes)
    → decide j (xs ++ row ∷ ys) clean ≡ restore es
    → (clean ≡ true)
      × (any (is_commit c) es ≡ (
          any (is_commit c) j.entries
          && any (λ (r : StashRow). bytes_eq r.commit c) (xs ++ row ∷ ys)))
      × (count_kind unstaged es ≤ 1)
      × (count_kind intent_to_add es ≤ 1)
      × (((is_pid (message_pid row.subject) j.pid || is_intent_to_add row.subject) ≡ false)
          ⊎ ((any (λ d. bytes_eq d row.commit) j.stashes_before
                || any (is_commit row.commit) j.entries)
              ≡ true))
unfolding decide
decide-restore j xs ys row clean es c h =
    let stash = xs ++ row ∷ ys in
    let (a, (b, (e, (d, f)))) =
      decided-restore (present_entries j stash) (unrecorded_entries j stash) clean es h in
    (
      a,
      ap (any (is_commit c)) e ∙ present_entries-is_commit j stash c,
      subst (λ t. count_kind unstaged t ≤ 1) (sym e) d,
      subst (λ t. count_kind intent_to_add t ≤ 1) (sym e) f,
      recorded j row (unrecorded_entries-none j xs ys row b),
    )

-- Forgetting a commit after recording it leaves the journal that forgetting it without recording it
-- leaves.
pub forget-record_entry :
    (j : Journal) (commit : Bytes) (kind : StashKind)
    → forget (record_entry j commit kind) commit ≡ forget j commit
unfolding forget record_entry filter
forget-record_entry j commit kind =
    if_cases {A = Journal} (λ k. forget k commit ≡ forget j commit)
      (any (is_commit commit) j.entries) _ _ (λ _. refl)
      (λ _. ap (λ es. record j { entries = es }) (filter-append_dropped j.entries))
  where
    filter-append_dropped :
        (es : List JournalEntry)
        → filter
            (λ e. not (is_commit commit e))
            (es ++ record { commit = commit; kind = kind } ∷ [])
          ≡ filter (λ e. not (is_commit commit e)) es
    filter-append_dropped [] = rw (bytes_eq_refl commit) refl
    filter-append_dropped (e ∷ es) = rw (filter-append_dropped es) refl
