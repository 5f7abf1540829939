-- ===== src/Go/Format.antt =====
-- Go's `fmt` verbs, `int32` conversion and `strings` functions that the program uses.
pub mod Digits
use Prim.Native.Char.{Char}
use Prim.Native.String.{◌++◌}
use ray_on_vcf.Prelude.{
  ℕ, zero, suc, ◌-◌, ◌/◌, ◌%◌, ◌^◌, String, List, [], ◌∷◌, ltb, if◌then◌else◌, ◌==◌, Bool,
}

-- The letter `s[i]`, as a text; the empty text past the end, where Go would panic.
unfoldable pub letter_at : String → ℕ → String
letter_at String.[] i = ""
letter_at (String.◌∷◌ c s) zero = String.◌∷◌ c ""
letter_at (String.◌∷◌ c s) (suc i) = letter_at s i

-- The last digits of a number in base ten, as many as `fuel` allows.
unfoldable pub show_digits : ℕ → ℕ → String
show_digits zero n = ""
show_digits (suc fuel) n =
    let front = show_digits fuel (n / 10) in
    let last = letter_at "0123456789" (n % 10) in if ltb n 10 then last else front ++ last

-- A signed number: `pos n` is n and `negsuc n` is -(n + 1).
pub data ℤ : Type 0 where
  pos negsuc : ℕ → ℤ

-- `int32(n)` of a `uint`, which keeps the low 32 bits.
unfoldable pub int32 : ℕ → ℤ
int32 n = let m = n % 2 ^ 32 in if ltb m (2 ^ 31) then pos m else negsuc (2 ^ 32 - 1 - m)

-- `%d` of an `int32`, which has at most ten digits.
unfoldable pub show_int32 : ℤ → String
show_int32 (pos n) = show_digits 10 n
show_int32 (negsuc n) = "-" ++ show_digits 10 (suc n)

-- `strings.Join(xs, "")` and `strings.Join(xs, sep)`
unfoldable pub concat : List String → String
concat [] = ""
concat (x ∷ xs) = x ++ concat xs

unfoldable pub join : String → List String → String
join sep [] = ""
join sep (x ∷ []) = x
join sep (x ∷ y ∷ ys) = x ++ sep ++ join sep (y ∷ ys)

-- `strings.Repeat(" ", n)`
unfoldable pub spaces : ℕ → String
spaces zero = ""
spaces (suc n) = String.◌∷◌ " " (spaces n)

-- `c` in front of the first piece of a split.
unfoldable pub prepend : Char → List String → List String
prepend c [] = String.◌∷◌ c "" ∷ []
prepend c (x ∷ xs) = String.◌∷◌ c x ∷ xs

abbrev pub is_newline : Char → Bool
is_newline c = String.◌∷◌ c "" == "\n"

-- `strings.SplitAfter(s, "\n")`: the pieces end with their newline, but the last one.
unfoldable pub split_after : String → List String
split_after String.[] = "" ∷ []
split_after (String.◌∷◌ c s) =
    let rest = split_after s in if is_newline c then String.◌∷◌ c "" ∷ rest else prepend c rest
