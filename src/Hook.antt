-- ===== src/Hook.antt =====
-- ci/pre-commit-hook/copyrights.go: the commit hook that looks for the copyright notice in Go files.
pub mod Outcome
pub mod Comments
pub mod Walk
pub mod Verdict
use Prim.Native.String.{◌++◌}
use ray_on_vcf.Prelude.{
  ℕ, String, Bool, true, false, Option, none, some, List, [], ◌∷◌, if◌then◌else◌,
}
use ray_on_vcf.Go.{message, Result, ok, err}
use ray_on_vcf.Go.Format.{split_after}
use ray_on_vcf.Go.Text.{drop, has_prefix, trim_prefix, replace, scan_lines}
use ray_on_vcf.Hook.Outcome.{Run, returns, fatal, panics, ◌>>=◌}
use ray_on_vcf.Hook.Comments.{Sources, has_copyright_header}
use ray_on_vcf.Hook.Walk.{Entry, Report, Answer, walk}

abbrev pub boilerplate_file_path : String
boilerplate_file_path = "./vmray-cluster-operator/hack/boilerplate.go.txt"

-- The notice that is looked for, from the lines that are scanned of the boilerplate: the first, or a
-- panic if there is none, with its parentheses escaped.
unfoldable pub notice_of : List String → Run String
notice_of [] = panics
notice_of (line ∷ lines) =
    let text = if has_prefix line "//" then trim_prefix (drop 2 line) " " else line in
    returns (replace text "(c)" "\\(c\\)")

-- `getCopyrightHeader`, less what it prints: the empty notice if the file cannot be opened.
unfoldable pub get_copyright_header : Sources → String → Run String
unfolding notice_of
get_copyright_header files boilerplate_file = elim (files.open_file boilerplate_file) [
  | err e ↦ returns ""
  | ok content ↦ notice_of (scan_lines (split_after content))
]

-- The command line: `-notice`, if it is given, and the roots.
pub record Args : Type 0 where
  pub notice : Option String
  pub roots : List String

-- `flag.Args()`, or the working directory.
abbrev pub roots_of : List String → List String
roots_of [] = "." ∷ []
roots_of (root ∷ roots) = root ∷ roots

-- The value of the flag.
abbrev pub given_or : String → Option String → String
given_or default none = default
given_or default (some given) = given

-- What else the hook relies on: the entries below a root, and `regexp.Compile` with `Match`.
pub record System : Type 0 where
  pub files : Sources
  pub entry_at : String → Entry
  pub compile : String → Result (String → Bool)

-- `os.Exit(3)` if a header is missing; `log.Fatalf` exits with 1, a panic with 2.
abbrev pub status_of : Run Report → ℕ
status_of (returns rep) = elim rep.missing [ true ↦ 3 | false ↦ 0 ]
status_of (fatal m) = 1
status_of panics = 2

module _ (sys : System) where
  -- The walk from one root; `filepath.SkipDir` at the root itself is no error.
  unfoldable pub check_root : (String → Bool) → String → Report → Run Report
  check_root copyright root rep =
      walk (has_copyright_header sys.files copyright) root (sys.entry_at root) rep >>= λ r.
      elim r.0 [
        | Answer.next ↦ returns r.1
        | Answer.skip_dir ↦ returns r.1
        | Answer.failed e ↦ fatal ("error during walk: " ++ message e)
      ]

  unfoldable pub check_roots : (String → Bool) → List String → Report → Run Report
  check_roots copyright [] rep = returns rep
  check_roots copyright (root ∷ roots) rep =
      check_root copyright root rep >>= λ rep'. check_roots copyright roots rep'

  -- `main`, up to its exit.
  unfoldable pub check_all : Args → Run Report
  check_all args = do
    copyright_text ← get_copyright_header sys.files boilerplate_file_path
    elim (sys.compile (given_or copyright_text args.notice)) [
      | err e ↦ fatal ("could not compile notice regexp: " ++ message e)
      | ok copyright ↦
          check_roots copyright (roots_of args.roots) (record { missing = false; printed = [] })
    ]

  -- The exit status.
  unfoldable pub exit_status : Args → ℕ
  exit_status args = status_of (check_all args)
