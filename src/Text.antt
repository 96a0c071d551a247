-- ===== src/Text.antt =====
-- Python's texts as lists of code points, as far as the program reads numbers from them.
use Prim.Native.Char.{code}
use moaje_work.Prelude.{
  ℕ, ◌+◌, ◌*◌, Bool, true, false, not, ◌||◌, ◌&&◌, Option, none, some, List, [], ◌∷◌, String, ◌==◌,
  leb, if◌then◌else◌, count, ℤ, pos, sub_ℕ,
}

abbrev pub codes : String → List ℕ
codes String.[] = []
codes (String.◌∷◌ c s) = code c ∷ codes s

-- The spaces of `str.strip()`.
abbrev pub is_space : ℕ → Bool
is_space c =
    (leb 9 c && leb c 13)
    || (leb 28 c && leb c 32)
    || (c == 133)
    || (c == 160)
    || (c == 5760)
    || (leb 8192 c && leb c 8202)
    || (c == 8232)
    || (c == 8233)
    || (c == 8239)
    || (c == 8287)
    || (c == 12288)

abbrev pub strip_left : List ℕ → List ℕ
strip_left [] = []
strip_left (c ∷ cs) = let rest = strip_left cs in if is_space c then rest else c ∷ cs

abbrev pub strip_right : List ℕ → List ℕ
strip_right [] = []
strip_right (c ∷ cs) = elim (strip_right cs) [
  | [] ↦ if is_space c then [] else c ∷ []
  | d ∷ ds ↦ c ∷ d ∷ ds
]

unfoldable pub strip : List ℕ → List ℕ
strip cs = strip_right (strip_left cs)

-- The pieces of `text.split(separator)`: the first, and those after it.
unfoldable pub split : ℕ → List ℕ → List ℕ × List (List ℕ)
split separator [] = ([], [])
split separator (c ∷ cs) =
    let (piece, pieces) = split separator cs in
    if c == separator then ([], piece ∷ pieces) else (c ∷ piece, pieces)

-- The values of the characters that count as decimal digits are those of Python's Unicode
-- database, a parameter.
module _ (digit_value : ℕ → Option ℕ) where
  -- The digits of a number after those read before, with single underscores between them.
  unfoldable pub digits_from : ℕ → Bool → List ℕ → Option ℕ
  digits_from value after_digit [] = if after_digit then some value else none
  digits_from value after_digit (c ∷ cs) =
      let more = digits_from value false cs in
      if c == 95
      then (if after_digit then more else none)
      else elim (digit_value c) [ none ↦ none | some d ↦ digits_from (value * 10 + d) true cs ]

  abbrev signed_int : Bool → Option ℕ → Option ℤ
  signed_int negative none = none
  signed_int negative (some n) = some (if negative then sub_ℕ 0 n else pos n)

  unfoldable pub int_of_stripped : List ℕ → Option ℤ
  unfolding digits_from
  int_of_stripped [] = none
  int_of_stripped (c ∷ cs) =
      if c == 45
      then signed_int true (digits_from 0 false cs)
      else if c == 43
      then signed_int false (digits_from 0 false cs)
      else signed_int false (digits_from 0 false (c ∷ cs))

  -- `int(text)`, none where it raises ValueError; it reads at most 4,300 digits.
  unfoldable pub python_int : List ℕ → Option ℤ
  unfolding strip int_of_stripped
  python_int text =
      let raw = strip text in
      if leb (count (λ c. not (c == 95 || (c == 45 || c == 43))) raw) 4300
      then int_of_stripped raw
      else none
