-- ===== src/Lib.antt =====
-- hk runs the checks and fixers of a Git hook in parallel. A run plans steps, splits each step into
-- jobs over files, takes read and write locks on the files of a job, runs the job's command, stages what
-- it changed, and, where unstaged changes were stashed first, merges them back.
--
-- The parts and their files:
-- - Merge: src/merge.rs, `diff_hunks` (a table of longest common subsequences and a walk through it),
--   `hunks_overlap` and `three_way_merge_hunks`. The merge loop runs on fuel, one more than the number of
--   hunks, since each round takes a hunk; a slice out of range would be `none`.
-- - Locks: src/file_rw_locks.rs, the `Table` with its queue; `lock` is `read_locks` and `write_locks`,
--   `drop_held` and `drop_wait` the two `Drop` implementations. A process is a sequence of such steps.
-- - StageQueue: src/stage_queue.rs, the two critical sections of `stage`; the queue is shared by every
--   step that stages, and `git add` is an outcome given to a step.
-- - Batching: src/step/batching.rs, `auto_batch_jobs` and its limits. The binary search has a unit of
--   fuel for each file left, and so has the loop over the files of a job. Jobs reach the locks afterwards.
-- - Journal: src/stash_journal.rs, what is recorded before unstaged changes are stashed, and the decision
--   of a later process that finds the journal.
-- - Fixers: src/cli/util, the built-in fixers on the contents of a file: TextFile (text_files.rs),
--   MixedLineEnding (mixed_line_ending.rs), EndOfFile (end_of_file_fixer.rs), TrailingWhitespace
--   (trailing_whitespace.rs).
-- - Sharing: src/step/job_builder.rs, `share_jobs`, `batch_counts` and `shared_batch_jobs`, which say into
--   how many batches `split_evenly` splits the files of a step; the loop runs once for each job left.
-- - CommitTitle: src/cli/util/check_conventional_commit.rs, the whole check of a commit title.
-- - DiffLines: src/step/mod.rs, `diff_lines`, which of the lines of a unified diff are in a hunk.
-- - StepGroup: src/step_group.rs, the flags that a cancelled run leaves and `settle`, which reads them,
--   `build_all`, which steps of a hook run together, and src/hook.rs,
--   `get_step_groups`.
-- - Restore: src/git.rs, `resolve_restore_text` and `merge_step_change`, which merge a file of the stash
--   with what the steps left; they call Merge.
-- - WorktreeStatus: src/git.rs, `parse_porcelain_status` and the two classifications of its entries,
--   `from_entries` and `from_entries_libgit2`, which say whether there is something to stash.
-- - Patches: src/step/diff.rs, `apply_patch`: a plan of the new contents, then its writes and their
--   rollback. Each operation on a file takes a fate from a list, so that any of them can fail.
--   A path is its components, as the source's map of files has it, and names a file; the hidden copies of
--   deleted files are a part of the state, and each may stay where its removal fails.
-- - RestorePlan: src/git.rs, `restore_plan` and `WorktreeMatcher::matches`: which paths of a stash can be
--   restored over what the steps left. Restore then says what is written for those that are merged.
-- - GitIndex: src/git_index.rs, `racily_clean_paths`, a reader of git's index by positions. The loop over
--   the extensions has a unit of fuel for each byte, and running out of it counts as a panic.
-- - CheckList: src/step/check_parsing.rs, `match_listed_files`: the files of a job that a check's output
--   lists, by the paths as written and by what they resolve to.
-- - Prelude: names of the libraries, Boolean tests, lists, and texts as lists of byte values with the
--   standard library's functions on them that the code calls.
--
-- Parameters: `std::str::from_utf8`, the rendering of commands and the platform's limits, the order of
-- canonical paths, the components of a path and the file that they name, what paths resolve to, which
-- paths exist or are empty files, the trees and hashes of
-- git, the parser of patches and the library that applies a hunk, the outcome of `git add`, and the
-- identity and state of processes.
--
-- Not modelled: processes, async scheduling other than as sequences of steps, permissions and other
-- metadata of files, git itself and the making of stashes, the Pkl configuration and its templates,
-- diagnostics and all output.
pub mod Prelude
pub mod Batching
pub mod CheckList
pub mod CommitTitle
pub mod DiffLines
pub mod Fixers
pub mod GitIndex
pub mod Journal
pub mod Locks
pub mod Merge
pub mod Patches
pub mod Restore
pub mod RestorePlan
pub mod Sharing
pub mod StageQueue
pub mod StepGroup
pub mod WorktreeStatus
