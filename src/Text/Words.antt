-- ===== src/Text/Words.antt =====
-- Python's `str.split`, `str.replace` of one character by nothing and `str.isdigit`, over native texts.
use Prim.Native.Char.{code}
use avocado_misc_tests.Prelude.{
  ℕ, String, ◌<>◌, ◌≡◌, refl, Bool, true, false, ◌&&◌, List, [], ◌∷◌, leb, ◌==◌, if◌then◌else◌,
}
use avocado_misc_tests.Text.{is_empty, is_space}

-- `s.split(c)`
unfoldable pub split_on : ℕ → String → List String
split_on sep s = go s ""
  where
    go : String → String → List String
    go String.[] part = part ∷ []
    go (String.◌∷◌ c s) part =
        let next = go s "" in
        let more = go s (part <> (String.◌∷◌ c "")) in if code c == sep then part ∷ next else more

-- `s.split()`
unfoldable pub split_words : String → List String
unfolding is_space
split_words s = go s ""
  where
    go : String → String → List String
    go String.[] word = if is_empty word then [] else word ∷ []
    go (String.◌∷◌ c s) word =
        let next = go s "" in
        let more = go s (word <> (String.◌∷◌ c "")) in
        if is_space (code c) then (if is_empty word then next else word ∷ next) else more

-- `s.replace(c, '')`
unfoldable pub remove_char : ℕ → String → String
remove_char k String.[] = ""
remove_char k (String.◌∷◌ c s) =
    let rest = remove_char k s in if code c == k then rest else String.◌∷◌ c rest

all_digits : String → Bool
all_digits String.[] = true
all_digits (String.◌∷◌ c s) =
    let rest = all_digits s in leb b'0' (code c) && leb (code c) b'9' && rest

-- `s.isdigit()`
unfoldable pub is_digit_text : String → Bool
unfolding all_digits
is_digit_text String.[] = false
is_digit_text (String.◌∷◌ c s) = all_digits (String.◌∷◌ c s)

words_run :
    (split_words "  603,989,146  branches  # 1 " ≡ "603,989,146" ∷ "branches" ∷ "#" ∷ "1" ∷ [])
    × (split_on b',' "a,,b" ≡ "a" ∷ "" ∷ "b" ∷ [])
    × (remove_char b',' "603,989,146" ≡ "603989146")
    × (is_digit_text "603989146" ≡ true)
unfolding split_words split_on remove_char is_digit_text
words_run = (refl, refl, refl, refl)
