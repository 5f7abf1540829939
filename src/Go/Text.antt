-- ===== src/Go/Text.antt =====
-- Go's slices of texts, and the functions of `strings` and `path/filepath` that the commit hook
-- uses. A text is a list of bytes here.
pub mod Laws
use Prim.Native.Char.{Char}
use Prim.Native.String.{count, ◌++◌}
use ray_on_vcf.Prelude.{
  ℕ, zero, suc, ◌-◌, String, Bool, true, false, Option, none, some, List, [], ◌∷◌, ◌==◌, ltb,
  if◌then◌else◌, ◌||◌,
}

-- `s[n:]`; past the end Go would panic, and the code never goes there.
unfoldable pub drop : ℕ → String → String
drop zero s = s
drop (suc n) String.[] = ""
drop (suc n) (String.◌∷◌ c s) = drop n s

-- `s[:n]` for n up to the length.
unfoldable pub take : ℕ → String → String
take zero s = ""
take (suc n) String.[] = ""
take (suc n) (String.◌∷◌ c s) = String.◌∷◌ c (take n s)

-- `s[:len(s)-n]`, where `none` is Go's panic.
unfoldable pub drop_end : ℕ → String → Option String
drop_end n s = if ltb (count s) n then none else some (take (count s - n) s)

-- `strings.HasPrefix(s, p)`
unfoldable pub has_prefix : String → String → Bool
has_prefix s p = take (count p) s == p

-- `strings.HasSuffix(s, p)`
unfoldable pub has_suffix : String → String → Bool
has_suffix s p = if ltb (count s) (count p) then false else drop (count s - count p) s == p

-- `strings.TrimPrefix(s, p)` and `strings.TrimSuffix(s, p)`
unfoldable pub trim_prefix : String → String → String
trim_prefix s p = if has_prefix s p then drop (count p) s else s

unfoldable pub trim_suffix : String → String → String
trim_suffix s p = if has_suffix s p then take (count s - count p) s else s

-- `strings.Replace(s, old, new, -1)` for a text `old` that is not empty. `skipped` counts the rest
-- of an occurrence that was replaced.
unfoldable pub replace_from : ℕ → String → String → String → String
replace_from skipped String.[] old new = ""
replace_from (suc n) (String.◌∷◌ c s) old new = replace_from n s old new
replace_from zero (String.◌∷◌ c s) old new = elim (has_prefix (String.◌∷◌ c s) old) [
  | true ↦ new ++ replace_from (count old - 1) s old new
  | false ↦ String.◌∷◌ c (replace_from zero s old new)
]

unfoldable pub replace : String → String → String → String
unfolding replace_from
replace s old new = replace_from 0 s old new

-- `filepath.Ext(name)` of the name of a file, which has no separator.
unfoldable pub ext : String → String
ext String.[] = ""
ext (String.◌∷◌ c s) =
    let rest = ext s in
    if rest == "" then (if String.◌∷◌ c "" == "." then String.◌∷◌ c s else "") else rest

-- `bufio.MaxScanTokenSize`: the scanner stops at a line that fills its buffer.
abbrev max_scan_token_size : ℕ
max_scan_token_size = 65536

-- `bufio.Scanner` with `ScanLines`: a `\r` before the newline goes too, what follows the last
-- newline is a line only if it is not empty, and neither a line that is too long nor any after it
-- is scanned.
unfoldable pub scan_lines : List String → List String
scan_lines [] = []
scan_lines (piece ∷ []) =
    if piece == ""
    then []
    else if ltb (count piece) max_scan_token_size
    then trim_suffix piece "\r" ∷ []
    else []
scan_lines (piece ∷ next ∷ pieces) =
    let rest = scan_lines (next ∷ pieces) in
    let line = trim_suffix piece "\n" in
    if ltb (count line) max_scan_token_size then trim_suffix line "\r" ∷ rest else []

abbrev onto : Char → List String → List String
onto c [] = String.◌∷◌ c "" ∷ []
onto c (s ∷ ss) = String.◌∷◌ c s ∷ ss

-- The elements of a path.
unfoldable pub elements : String → List String
elements String.[] = "" ∷ []
elements (String.◌∷◌ c s) = if String.◌∷◌ c "" == "/" then "" ∷ elements s else onto c (elements s)

-- The last elements of a cleaned path first: `..` takes the element before it away.
abbrev pushed : Bool → List String → String → List String
pushed rooted stack element =
    if element == "" || element == "."
    then stack
    else if element == ".."
    then elim stack [
      | [] ↦ if rooted then [] else ".." ∷ []
      | last ∷ before ↦ if last == ".." then ".." ∷ last ∷ before else before
    ]
    else element ∷ stack

unfoldable pub stacked : Bool → List String → List String → List String
stacked rooted stack [] = stack
stacked rooted stack (element ∷ rest) = stacked rooted (pushed rooted stack element) rest

unfoldable pub path_of : List String → String → String
path_of [] path = path
path_of (last ∷ before) path = path_of before (if path == "" then last else last ++ "/" ++ path)

-- `filepath.Clean` and `filepath.Join(path, name)` where the separator is `/`.
unfoldable pub clean : String → String
unfolding stacked path_of elements
clean path =
    let rooted = has_prefix path "/" in
    let cleaned = path_of (stacked rooted [] (elements path)) "" in
    if rooted then "/" ++ cleaned else if cleaned == "" then "." else cleaned

unfoldable pub join_path : String → String → String
unfolding clean
join_path path name =
    if path == ""
    then (if name == "" then "" else clean name)
    else if name == ""
    then clean path
    else clean (path ++ "/" ++ name)
