-- ===== src/Tests/Commits.antt =====
-- The commit hook's theorems at a small repository, and runs of the hook.
use Prim.Native.String.{◌++◌}
use ray_on_vcf.Prelude.{
  ◌≡◌, ◌↔◌, refl, String, Bool, true, false, none, some, [], ◌∷◌, All, ◌==◌, if◌then◌else◌,
}
use ray_on_vcf.Go.{ok}
use ray_on_vcf.Go.Format.{split_after, prepend}
use ray_on_vcf.Go.Text.{
  drop, take, drop_end, has_prefix, has_suffix, trim_prefix, trim_suffix, replace, ext, scan_lines,
  elements, stacked, path_of, clean, join_path,
}
use ray_on_vcf.Hook.{
  System, Args, exit_status, check_all, check_roots, check_root, get_copyright_header,
}
use ray_on_vcf.Hook.Outcome.{returns, panics}
use ray_on_vcf.Hook.Comments.{
  Sources, has_copyright_header, any_matches, group_text, comment_text, close_comment,
}
use ray_on_vcf.Hook.Comments.Text.{
  block_text, close_comment-block, some_group_matches, has_copyright_header-lines,
}
use ray_on_vcf.Hook.Verdict.{IsNotice, RootIsCovered, exit_status-zero_iff}
use ray_on_vcf.Hook.Walk.{Entry, Entries, walk}

abbrev notice_line : String
notice_line = "// Copyright (c) 2024"

-- Every file holds the notice, but those in testdata.
abbrev some_files : Sources
some_files = record {
  read_file = λ path. if path == "testdata/b.go" then ok "package b" else ok notice_line;
  open_file = λ path. ok notice_line;
  parse_comments = λ src. if src == notice_line then ok ((src ∷ []) ∷ []) else ok [];
}

abbrev repository : Entry
repository = Entry.dir "." (
    Entries.entry (Entry.file "a.go") (
      Entries.entry (Entry.file "notes.txt") (
        Entries.entry (Entry.dir "testdata" (Entries.entry (Entry.file "b.go") Entries.end))
          Entries.end)))

-- The expression of the notice matches the notice, and any other expression nothing.
abbrev some_system : System
some_system = record {
  files = some_files;
  entry_at = λ root. repository;
  compile = λ text.
      ok (λ s. if text == "Copyright \\(c\\) 2024" then s == "Copyright (c) 2024\n" else false);
}

abbrev no_args : Args
no_args = record { notice = none; roots = [] }

exit_status-zero_iff_example : (exit_status some_system no_args ≡ 0) ↔ (
    (copyright : String → Bool) × IsNotice some_system no_args copyright
    × All (RootIsCovered some_system copyright) ("." ∷ []))
exit_status-zero_iff_example = exit_status-zero_iff some_system no_args

hook_passes : exit_status some_system no_args ≡ 0
unfolding exit_status check_all get_copyright_header replace trim_prefix has_prefix take drop
    scan_lines split_after check_roots check_root walk has_copyright_header any_matches group_text
    comment_text ext prepend trim_suffix has_suffix elements stacked path_of clean join_path
hook_passes = refl

-- With another notice the file in the root is missing it.
hook_fails : exit_status some_system (record no_args { notice = some "Licence" }) ≡ 3
unfolding exit_status check_all get_copyright_header replace trim_prefix has_prefix take drop
    scan_lines split_after check_roots check_root walk has_copyright_header any_matches group_text
    comment_text ext prepend trim_suffix has_suffix elements stacked path_of clean join_path
hook_fails = refl

has_copyright_header-lines_example :
    has_copyright_header some_files (λ s. s == "Copyright (c) 2024\n") "a.go"
    ≡ returns (ok (some_group_matches (λ s. s == "Copyright (c) 2024\n") ((notice_line ∷ []) ∷ [])))
unfolding has_prefix take
has_copyright_header-lines_example =
    has_copyright_header-lines some_files (λ s. s == "Copyright (c) 2024\n") "a.go" notice_line
      ((notice_line ∷ []) ∷ []) refl refl (((refl, refl), tt), tt)

close_comment-block_example : close_comment true ("Copyright" ++ "*/") ≡ block_text "Copyright"
close_comment-block_example = close_comment-block "Copyright"

block_loses_its_end : block_text "Copyright" ≡ returns (false, "Copyrig")
unfolding drop_end take trim_suffix has_suffix drop
block_loses_its_end = refl

short_block_panics : comment_text false "/*x*/" ≡ panics
unfolding comment_text has_prefix take drop trim_prefix has_suffix drop_end
short_block_panics = refl

-- Paths are cleaned when they are joined.
joins_clean :
    (join_path "." "a.go" ≡ "a.go")
    × (join_path "/" "x" ≡ "/x")
    × (join_path "a/" "x" ≡ "a/x")
    × (join_path "./b//../c" "x" ≡ "c/x")
    × (join_path "../d" "x" ≡ "../d/x")
unfolding elements stacked path_of clean join_path has_prefix take
joins_clean = (refl, refl, refl, refl, refl)
