-- ===== src/Hook/Comments/Text.antt =====
-- The text of a group of comments, and what happens to the end of a block.
use Prim.Native.String.{◌++◌}
use ray_on_vcf.Prelude.{
  ◌≡◌, refl, String, Bool, true, false, List, [], ◌∷◌, All, arith, ◌||◌, inl, inr, Bool-cases,
}
use ray_on_vcf.Go.{ok}
use ray_on_vcf.Go.Text.{drop, drop_end, has_prefix, trim_prefix, trim_suffix}
use ray_on_vcf.Go.Text.Laws.{drop_end-append, has_suffix-append}
use ray_on_vcf.Hook.Outcome.{Run, returns, or_panic, ◌>>=◌}
use ray_on_vcf.Hook.Comments.{
  Sources, open_comment, close_comment, comment_text, group_text, any_matches, has_copyright_header,
}

-- A comment to the end of its line.
abbrev pub IsLineComment : String → Type 0
IsLineComment text = (has_prefix text "//" ≡ true) × (has_prefix text "/*" ≡ false)

-- Its text: what follows the mark, and one space after it.
abbrev pub line_text : String → String
line_text text = trim_prefix (drop 2 text) " "

-- The texts of line comments, each on its line.
pub lines_text : List String → String
lines_text [] = ""
lines_text (text ∷ texts) = line_text text ++ "\n" ++ lines_text texts

group_text-lines :
    (texts : List String)
    → All IsLineComment texts
    → group_text false texts ≡ returns (lines_text texts)
unfolding group_text lines_text comment_text open_comment close_comment
group_text-lines [] h = refl
group_text-lines (text ∷ texts) ((p, q), h) = ground (arith, group_text-lines texts h)

-- Does the text of one of the groups match?
pub some_group_matches : (String → Bool) → List (List String) → Bool
some_group_matches copyright [] = false
some_group_matches copyright (group ∷ groups) =
    copyright (lines_text group) || some_group_matches copyright groups

any_matches-lines :
    (copyright : String → Bool) (groups : List (List String))
    → All (All IsLineComment) groups
    → any_matches copyright groups ≡ returns (some_group_matches copyright groups)
unfolding any_matches some_group_matches
any_matches-lines copyright [] h = refl
any_matches-lines copyright (group ∷ groups) (g, h) =
    elim (Bool-cases (copyright (lines_text group))) [
      | inl e ↦ rw (group_text-lines group g) (rw e refl)
      | inr e ↦ rw (group_text-lines group g) (rw e (any_matches-lines copyright groups h))
    ]

-- A file whose comments are all line comments has a header exactly if the text of one of its
-- groups matches: the lines of the group without their marks.
pub has_copyright_header-lines :
    (files : Sources) (copyright : String → Bool) (fname src : String) (groups : List (List String))
    → files.read_file fname ≡ ok src
    → files.parse_comments src ≡ ok groups
    → All (All IsLineComment) groups
    → has_copyright_header files copyright fname
      ≡ returns (ok (some_group_matches copyright groups))
unfolding has_copyright_header
has_copyright_header-lines files copyright fname src groups r p h =
    ground (arith, any_matches-lines copyright groups h)

-- The text that a block comment leaves, from what stands between its marks: none if the hook
-- panics.
abbrev pub block_text : String → Run (Bool × String)
block_text body = or_panic (drop_end 2 body) >>= λ rest. returns (false, trim_suffix rest " ")

-- The end of a block loses its last two bytes, besides the closing mark; and a block with fewer
-- than two bytes makes the hook panic.
pub close_comment-block : (body : String) → close_comment true (body ++ "*/") ≡ block_text body
unfolding close_comment
close_comment-block body =
    let cut = drop_end-append body "*/" in
    let found = has_suffix-append body "*/" in rw (found, close_comment) (rw cut refl)
