-- ===== src/CommitTitle/Tests.antt =====
-- Inputs for the check of commit titles.
use hk.Prelude.{contains_byte, arith, ◌≡◌, refl, some, List, [], ◌∷◌, Bytes, codes}
use hk.Fixers.Suffix.{last}
use hk.CommitTitle.{
  check_commit_type, accepted, invalid_type, unclosed_scope, missing_description, is_generated,
  parse_commit_title, check_conventional_commit,
}
use hk.CommitTitle.Accepts.{parse_commit_title-printed}
use hk.CommitTitle.Grammar.{Title, IsTitle, printed, parse_commit_title-IsTitle}

abbrev allowed : List Bytes
allowed = codes "feat" ∷ codes "fix" ∷ []

abbrev title : Bytes
title = codes "feat(cli)!: add a flag"

comment_first : check_conventional_commit (codes "# note" ∷ title ∷ []) allowed ≡ accepted
unfolding check_conventional_commit
comment_first = refl

no_colon :
    parse_commit_title (codes "wip") allowed ≡ invalid_type (codes "wip") (some (codes "fix"))
unfolding parse_commit_title
no_colon = refl

open_scope : parse_commit_title (codes "fix(a: b") allowed ≡ unclosed_scope
unfolding parse_commit_title
open_scope = refl

no_space : parse_commit_title (codes "fix:b") allowed ≡ missing_description
unfolding parse_commit_title
no_space = refl

parse_commit_title-IsTitle_example : (t : Title) × (IsTitle allowed t × (printed t ≡ title))
unfolding parse_commit_title is_generated
parse_commit_title-IsTitle_example = parse_commit_title-IsTitle title allowed refl refl

-- `feat(cli)!: add`
abbrev breaking : Title
breaking = record {
  commit_type = codes "feat";
  scope = some (codes "cli");
  bangs = 1;
  description = codes "add";
}

parse_commit_title-printed_example : parse_commit_title (printed breaking) allowed ≡ accepted
unfolding check_commit_type contains_byte last
parse_commit_title-printed_example =
    parse_commit_title-printed allowed breaking (refl, (refl, (refl, (refl, refl))))
      (refl, (refl, (refl, (refl, λ c h. ground (arith, h)))))
