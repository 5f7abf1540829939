-- ===== src/Hook/Comments.antt =====
-- `hasCopyrightHeader` of ci/pre-commit-hook/copyrights.go.
pub mod Text
use Prim.Native.String.{◌++◌}
use ray_on_vcf.Prelude.{
  String, Bool, true, false, Option, none, some, List, [], ◌∷◌, if◌then◌else◌, not, ◌||◌,
}
use ray_on_vcf.Go.{Result, ok, err}
use ray_on_vcf.Go.Text.{drop, drop_end, has_prefix, has_suffix, trim_prefix, trim_suffix}
use ray_on_vcf.Hook.Outcome.{Run, returns, panics, or_panic, ◌>>=◌}

-- What the hook reads: a file's bytes; the bytes that a scanner can read of a file, if it opens; and
-- the comments before and after the package clause as `parser.ParseFile` groups them.
pub record Sources : Type 0 where
  pub read_file : String → Result String
  pub open_file : String → Result String
  pub parse_comments : String → Result (List (List String))

-- The start of a comment: is it a block, or were we in one, and the text behind the mark.
unfoldable pub open_comment : Bool → String → Bool × String
open_comment true text = (true, text)
open_comment false text =
    if has_prefix text "/*"
    then (true, trim_prefix (drop 2 text) " ")
    else if has_prefix text "//"
    then (false, trim_prefix (drop 2 text) " ")
    else (false, text)

-- The end of a block: the last two bytes are cut off twice.
unfoldable pub close_comment : Bool → String → Run (Bool × String)
close_comment false text = returns (false, text)
close_comment true text = elim (has_suffix text "*/") [
  | false ↦ returns (true, text)
  | true ↦ do
    once ← or_panic (drop_end 2 text)
    twice ← or_panic (drop_end 2 once)
    returns (false, trim_suffix twice " ")
]

-- One round of the loop over a group: the text that is printed to the buffer.
unfoldable pub comment_text : Bool → String → Run (Bool × String)
unfolding open_comment close_comment
comment_text in_comment text =
    let (inside, rest) = open_comment in_comment text in close_comment inside rest

-- The buffer of a group, from where the loop is.
unfoldable pub group_text : Bool → List String → Run String
group_text in_comment [] = returns ""
group_text in_comment (text ∷ texts) = comment_text in_comment text >>= λ r.
    group_text r.0 texts >>= λ rest. returns (r.1 ++ "\n" ++ rest)

-- The loop over the groups, which ends at the first match.
unfoldable pub any_matches : (String → Bool) → List (List String) → Run Bool
any_matches copyright [] = returns false
any_matches copyright (group ∷ groups) = do
  text ← group_text false group
  elim (copyright text) [ true ↦ returns true | false ↦ any_matches copyright groups ]

-- `hasCopyrightHeader`
unfoldable pub has_copyright_header : Sources → (String → Bool) → String → Run (Result Bool)
has_copyright_header files copyright fname = elim (files.read_file fname) [
  | err e ↦ returns (err e)
  | ok src ↦ elim (files.parse_comments src) [
    | err e ↦ returns (err e)
    | ok groups ↦ any_matches copyright groups >>= λ found. returns (ok found)
  ]
]
