-- ===== src/Journal.antt =====
-- src/stash_journal.rs: the journal of a process that has stashed changes, and what another process
-- that finds it may do. Texts are bytes; the journal file, its lock and JSON are left out, so that
-- `record`, `forget` and `remove` say what they do once the lock is had.
mod Recovery
mod Status
mod Tests
use hk.Prelude.{
  ℕ, ◌+◌, ◌^◌, Bool, true, false, ◌&&◌, ◌||◌, not, Option, none, some, List, [], ◌∷◌, ◌++◌, map,
  Bytes, codes, bytes_eq, starts_with, strip_prefix, split_once, take_until, parse_unsigned, filter,
  any, is_empty, length, ltb, ◌==◌, if◌then◌else◌,
}

pub data StashKind : Type 0 where
  unstaged : StashKind
  intent_to_add : StashKind

pub record JournalEntry : Type 0 where
  pub commit : Bytes
  pub kind : StashKind

pub record Journal : Type 0 where
  pub version : ℕ
  pub pid : ℕ
  pub pid_start : Option Bytes
  pub owner_host : Option Bytes
  pub timestamp : ℕ
  pub hook : Bytes
  pub worktree : Bytes
  pub stashes_before : List Bytes
  pub entries : List JournalEntry

abbrev pub current_version : ℕ
current_version = 1

-- `Journal::new`, given what the process knows of itself.
abbrev pub new_journal : ℕ → Option Bytes → Option Bytes → ℕ → Bytes → Bytes → List Bytes → Journal
new_journal pid pid_start owner_host timestamp hook worktree stashes_before = record {
  version = current_version;
  pid = pid;
  pid_start = pid_start;
  owner_host = owner_host;
  timestamp = timestamp;
  hook = hook;
  worktree = worktree;
  stashes_before = stashes_before;
  entries = [];
}

-- The explanations that `owner` gives when it cannot tell.
pub data Why : Type 0 where
  start_unreadable : Why
  another_host : Why
  host_unknown_here : Why
  host_not_recorded : Why

pub data Owner : Type 0 where
  gone : Owner
  running : Owner
  unknown : Why → Owner

abbrev pub starts_differ : Option Bytes → Option Bytes → Bool
starts_differ (some a) (some b) = not (bytes_eq a b)
starts_differ (some a) none = false
starts_differ none start = false

abbrev pub is_unreadable : Option Bytes → Option Bytes → Bool
is_unreadable (some a) none = true
is_unreadable (some a) (some b) = false
is_unreadable none start = false

abbrev pub judged : (is_gone unreadable : Bool) → Owner
judged is_gone unreadable =
    if is_gone then gone else if unreadable then unknown start_unreadable else running

unfoldable pub owner : Journal → Option Bytes → Bool → Option Bytes → Owner
unfolding bytes_eq
owner j here alive current_start =
    let differs = starts_differ j.pid_start current_start in
    let unreadable = is_unreadable j.pid_start current_start in
    elim j.owner_host [
      | some recorded ↦ elim here [
        | some h ↦
            if bytes_eq recorded h
            then judged (not alive || differs) unreadable
            else unknown another_host
        | none ↦ unknown host_unknown_here
      ]
      | none ↦ if alive then judged differs unreadable else unknown host_not_recorded
    ]

abbrev pub is_commit : Bytes → JournalEntry → Bool
is_commit commit e = bytes_eq e.commit commit

-- `record`, once the lock is had.
unfoldable pub record_entry : Journal → Bytes → StashKind → Journal
unfolding any
record_entry j commit kind =
    if any (is_commit commit) j.entries
    then j
    else record j { entries = j.entries ++ record { commit = commit; kind = kind } ∷ [] }

-- `forget`, once the lock is had.
unfoldable pub forget : Journal → Bytes → Journal
unfolding filter
forget j commit = record j { entries = filter (λ e. not (is_commit commit e)) j.entries }

-- `remove`: the journal file afterwards, of whether the lock was had and of the file before, where
-- `some none` is a file that is no journal.
unfoldable pub remove : Journal → Bool → Option (Option Journal) → Option (Option Journal)
remove j locked on_disk =
    if locked
    then elim on_disk [
      | none ↦ none
      | some none ↦ none
      | some (some d) ↦ if d.pid == j.pid then none else some (some d)
    ]
    else on_disk

pub record StashRow : Type 0 where
  pub commit : Bytes
  pub subject : Bytes

abbrev pub stash_prefix : Bytes
stash_prefix = codes "hk: "

unfoldable pub stash_message : Bytes → Bytes
unfolding split_once starts_with
stash_message subject = elim (split_once (codes ": ") subject) [
  | none ↦ subject
  | some (before, rest) ↦ if starts_with rest stash_prefix then rest else subject
]

unfoldable pub message_pid : Bytes → Option ℕ
unfolding stash_message strip_prefix parse_unsigned take_until
message_pid subject = elim (strip_prefix stash_prefix (stash_message subject)) [
  | none ↦ none
  | some rest ↦ parse_unsigned (2 ^ 32) (take_until 45 rest)
]

unfoldable pub is_intent_to_add : Bytes → Bool
unfolding stash_message bytes_eq
is_intent_to_add subject = bytes_eq (stash_message subject) (codes "hk: intent-to-add files")

pub data ReportReason : Type 0 where
  dirty_worktree : ReportReason
  unrecorded_entry : ReportReason
  ambiguous : ReportReason
  unknown_owner : Why → ReportReason

pub data Action : Type 0 where
  discard : Action
  restore : List JournalEntry → Action
  report : ReportReason → List Bytes → Action

unfoldable pub is_before : Journal → Bytes → Bool
unfolding any bytes_eq
is_before j commit = any (λ c. bytes_eq c commit) j.stashes_before

abbrev pub is_pid : Option ℕ → ℕ → Bool
is_pid none pid = false
is_pid (some n) pid = n == pid

unfoldable pub is_unrecorded : Journal → StashRow → Bool
unfolding message_pid is_intent_to_add is_before any
is_unrecorded j row =
    (is_pid (message_pid row.subject) j.pid
      || (is_intent_to_add row.subject && not (is_before j row.commit)))
    && (not (is_before j row.commit) && not (any (is_commit row.commit) j.entries))

abbrev pub commits_of : List StashRow → List Bytes
commits_of [] = []
commits_of (row ∷ rows) = row.commit ∷ commits_of rows

abbrev pub entry_commits : List JournalEntry → List Bytes
entry_commits [] = []
entry_commits (e ∷ es) = e.commit ∷ entry_commits es

unfoldable pub unrecorded_entries : Journal → List StashRow → List Bytes
unfolding is_unrecorded filter
unrecorded_entries j stash = commits_of (filter (is_unrecorded j) stash)

-- Whether the commit is in the stash list.
unfoldable pub in_stash : List StashRow → Bytes → Bool
unfolding any bytes_eq
in_stash stash commit = any (λ (row : StashRow). bytes_eq row.commit commit) stash

-- The journal's entries that are still in the stash.
unfoldable pub present_entries : Journal → List StashRow → List JournalEntry
unfolding in_stash filter
present_entries j stash = filter (λ (e : JournalEntry). in_stash stash e.commit) j.entries

abbrev pub has_commit : List Bytes → Bytes → Bool
has_commit commits c = any (λ d. bytes_eq d c) commits

-- The loop that lists each unrecorded entry once.
unfoldable pub add_each : List Bytes → List Bytes → List Bytes
unfolding any bytes_eq
add_each commits [] = commits
add_each commits (c ∷ cs) =
    add_each (if has_commit commits c then commits else commits ++ c ∷ []) cs

-- The commits that `unknown_owner_report` lists, where the stash list could be read.
unfoldable pub unknown_owner_commits : Journal → List StashRow → Option (List Bytes)
unfolding present_entries unrecorded_entries add_each
unknown_owner_commits j stash =
    let commits = add_each (entry_commits (present_entries j stash)) (unrecorded_entries j stash) in
    if is_empty commits then none else some commits

abbrev pub is_kind : StashKind → StashKind → Bool
is_kind unstaged unstaged = true
is_kind unstaged intent_to_add = false
is_kind intent_to_add unstaged = false
is_kind intent_to_add intent_to_add = true

unfoldable pub count_kind : StashKind → List JournalEntry → ℕ
count_kind kind [] = 0
count_kind kind (e ∷ es) = (if is_kind e.kind kind then 1 else 0) + count_kind kind es

-- `decide`, of the journal's entries in the stash and the unrecorded ones.
unfoldable pub decided : List JournalEntry → List Bytes → Bool → Action
unfolding count_kind
decided present unrecorded worktree_clean =
    if not (is_empty unrecorded)
    then report unrecorded_entry (entry_commits present ++ unrecorded)
    else if is_empty present
    then discard
    else if ltb 1 (count_kind unstaged present) || ltb 1 (count_kind intent_to_add present)
    then report ambiguous (entry_commits present)
    else if not worktree_clean
    then report dirty_worktree (entry_commits present)
    else restore present

unfoldable pub decide : Journal → List StashRow → Bool → Action
unfolding present_entries unrecorded_entries decided
decide j stash worktree_clean =
    decided (present_entries j stash) (unrecorded_entries j stash) worktree_clean
