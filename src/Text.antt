-- ===== src/Text.antt =====
-- Python's `str` methods and the conversions between `str` and `int` that the programs use, over
-- native texts: `strip`, `in`, `split`, `splitlines`, `int(s)` and `str(n)`.
pub mod Words
use Prim.Native.Char.{code}
use text.Mathlib.Text.{find?}
use avocado_misc_tests.Prelude.{
  ℕ, zero, suc, ◌+◌, ◌-◌, ◌*◌, ◌/◌, ◌%◌, String, ◌<>◌, ◌≡◌, refl, Bool, true, false, ◌&&◌, ◌||◌,
  Option, none, some, List, [], ◌∷◌, ltb, leb, ◌==◌, if◌then◌else◌,
}
use avocado_misc_tests.Prelude.Int.{ℤ, pos, negsuc, sub_ℕ}

-- `x in s`
abbrev pub contains : String → String → Bool
contains s x = elim (find? s x) [ none ↦ false | some _ ↦ true ]

abbrev pub is_empty : String → Bool
is_empty String.[] = true
is_empty (String.◌∷◌ _ _) = false

unfoldable pub is_space : ℕ → Bool
is_space c = c == 32 || leb 9 c && leb c 13 || leb 28 c && leb c 31 || c == 133 || c == 160

-- `s.lstrip`, `s.rstrip` and `s.strip` of the characters that pass a test
unfoldable pub lstrip_by : (ℕ → Bool) → String → String
lstrip_by p String.[] = ""
lstrip_by p (String.◌∷◌ c s) =
    let rest = lstrip_by p s in if p (code c) then rest else String.◌∷◌ c s

unfoldable pub rstrip_by : (ℕ → Bool) → String → String
rstrip_by p String.[] = ""
rstrip_by p (String.◌∷◌ c s) =
    let rest = rstrip_by p s in if is_empty rest && p (code c) then "" else String.◌∷◌ c rest

unfoldable pub strip_by : (ℕ → Bool) → String → String
unfolding lstrip_by rstrip_by
strip_by p s = rstrip_by p (lstrip_by p s)

unfoldable pub strip : String → String
unfolding strip_by is_space
strip s = strip_by is_space s

-- `s.split(sep)[-1]` for a separator of one character: the text behind the last one.
unfoldable pub after_last : ℕ → String → String
after_last sep s = go s s
  where
    go : String → String → String
    go String.[] found = found
    go (String.◌∷◌ c rest) found = go rest (if code c == sep then rest else found)

-- the first run of characters that fail the test: a word, when the test is `is_space`
unfoldable pub take_until : (ℕ → Bool) → String → String
take_until p String.[] = ""
take_until p (String.◌∷◌ c s) =
    let rest = take_until p s in if p (code c) then "" else String.◌∷◌ c rest

-- `s.split()[-1]`; `none` is the IndexError of a text with no word.
unfoldable pub last_word : String → Option String
unfolding lstrip_by rstrip_by is_space
last_word s = let t = rstrip_by is_space s in if is_empty t then none else some (word t t)
  where
    word : String → String → String
    word String.[] found = found
    word (String.◌∷◌ c rest) found = word rest (if is_space (code c) then rest else found)

abbrev is_line_break : ℕ → Bool
is_line_break c = leb 10 c && leb c 13 || leb 28 c && leb c 30 || c == 133 || c == 8232 || c == 8233

cons_first : String → List String → List String
cons_first s [] = s ∷ []
cons_first s (l ∷ ls) = (s <> l) ∷ ls

-- `s.splitlines()`; the flag says that the last character read was a carriage return, so that a
-- line feed behind it ends no further line.
unfoldable pub splitlines : String → List String
unfolding cons_first
splitlines s = go s "" false false
  where
    -- line so far, whether anything stands on it, whether `\r` was read last
    go : String → String → Bool → Bool → List String
    go String.[] line started cr = if started then line ∷ [] else []
    go (String.◌∷◌ c s) line started cr =
        let new_line = line ∷ go s "" false (code c == 13) in
        let skip = go s "" false false in
        let more = go s (line <> (String.◌∷◌ c "")) true false in
        if cr && code c == 10 then skip else if is_line_break (code c) then new_line else more

abbrev pub put_char : String → List String → List String
put_char c [] = c ∷ []
put_char c (line ∷ lines) = (c <> line) ∷ lines

-- `file.readlines()` of what stands in the file: the lines keep their ends
unfoldable pub read_lines : String → List String
read_lines String.[] = []
read_lines (String.◌∷◌ c s) =
    let rest = read_lines s in if code c == 10 then "\n" ∷ rest else put_char (String.◌∷◌ c "") rest

abbrev digit : ℕ → String
digit d =
    if d == 0
    then "0"
    else if d == 1
    then "1"
    else if d == 2
    then "2"
    else if d == 3
    then "3"
    else if d == 4
    then "4"
    else if d == 5
    then "5"
    else if d == 6
    then "6"
    else if d == 7
    then "7"
    else if d == 8
    then "8"
    else "9"

print_fuel : ℕ → ℕ → String
print_fuel zero n = digit n
print_fuel (suc f) n =
    let front = print_fuel f (n / 10) <> digit (n % 10) in if ltb n 10 then digit n else front

-- `str(n)` of an `int`; a number has fewer digits than its value, so its value is fuel enough.
unfoldable pub string_of_int : ℤ → String
unfolding print_fuel
string_of_int (pos n) = print_fuel n n
string_of_int (negsuc n) = "-" <> print_fuel (suc n) (suc n)

-- The digits of `int(s)`; one `_` may stand between two digits.
unfoldable pub parse_digits : Bool → ℕ → String → Option ℕ
parse_digits after_digit n String.[] = if after_digit then some n else none
parse_digits after_digit n (String.◌∷◌ c s) =
    let d = code c in
    let digit_read = parse_digits true (n * 10 + (d - b'0')) s in
    let underscore = parse_digits false n s in
    if leb b'0' d && leb d b'9'
    then digit_read
    else if after_digit && d == b'_'
    then underscore
    else none

abbrev negate_opt : Option ℕ → Option ℤ
negate_opt none = none
negate_opt (some n) = some (sub_ℕ 0 n)

abbrev pos_opt : Option ℕ → Option ℤ
pos_opt none = none
pos_opt (some n) = some (pos n)

signed : String → Option ℤ
unfolding parse_digits
signed String.[] = none
signed (String.◌∷◌ c s) =
    if code c == b'-'
    then negate_opt (parse_digits false 0 s)
    else if code c == b'+'
    then pos_opt (parse_digits false 0 s)
    else pos_opt (parse_digits false 0 (String.◌∷◌ c s))

-- `int(s)`; `none` is the ValueError.
unfoldable pub int_of_string : String → Option ℤ
unfolding signed strip
int_of_string s = signed (strip s)

int_of_string_runs :
    (int_of_string " 42\n" ≡ some (pos 42))
    × (int_of_string "-7" ≡ some (negsuc 6))
    × (int_of_string "1_000" ≡ some (pos 1000))
    × (int_of_string "4.0" ≡ none)
    × (int_of_string "" ≡ none)
unfolding int_of_string
int_of_string_runs = (refl, refl, refl, refl, refl)

string_of_int_runs :
    (string_of_int (pos 1024) ≡ "1024")
    × (string_of_int (pos 0) ≡ "0")
    × (string_of_int (negsuc 41) ≡ "-42")
unfolding string_of_int
string_of_int_runs = (refl, refl, refl)

split_runs :
    (splitlines "a\nb\n" ≡ "a" ∷ "b" ∷ [])
    × (last_word "a b {\"c\"} " ≡ some "{\"c\"}")
    × (after_last b':' "Node Name : x" ≡ " x")
unfolding splitlines last_word after_last
split_runs = (refl, refl, refl)
