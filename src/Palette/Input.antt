-- ===== src/Palette/Input.antt =====
-- `trim_whitespace`, `valid_input` and `generate_json_response`
-- (src/request_handler/palette_handler.cc).
use server_spring.Base.{
  ℕ, suc, ◌+◌, ◌-◌, Bool, true, false, ◌&&◌, ◌||◌, List, [], ◌∷◌, ◌++◌, Bytes, codes, leb, ◌==◌,
  length, take, drop, get_elem?, Option, none, some, Run, ok, ◌>>=◌, at, if◌then◌else◌,
}
use server_spring.Number.{is_digit, is_space}

-- `WHITESPACE`
pub is_white : ℕ → Bool
is_white c = c == b' ' || c == b'\n'

pub find_first_not_of : Bytes → Option ℕ
find_first_not_of [] = none
find_first_not_of (c ∷ s) = elim (find_first_not_of s) [
  | none ↦ if is_white c then none else some 0
  | some i ↦ if is_white c then some (suc i) else some 0
]

pub find_last_not_of : Bytes → Option ℕ
find_last_not_of [] = none
find_last_not_of (c ∷ s) = elim (find_last_not_of s) [
  | none ↦ if is_white c then none else some 0
  | some i ↦ some (suc i)
]

-- The string without its first white space is computed, and overwritten: the last assignment cuts
-- `s` itself.
unfoldable pub trim_whitespace : Bytes → Bytes
unfolding find_first_not_of find_last_not_of is_white
trim_whitespace s =
    let s_trimmed : Bytes = elim (find_first_not_of s) [ none ↦ [] | some start ↦ drop start s ] in
    elim (find_last_not_of s) [ none ↦ [] | some last ↦ take (last + 1) s ]

-- `isalnum` of the C locale
pub is_alnum : ℕ → Bool
is_alnum c = is_digit c || (leb b'a' c && leb c b'z') || (leb b'A' c && leb c b'Z')

abbrev all_valid : Bytes → Bool
all_valid [] = true
all_valid (c ∷ s) = (is_alnum c || is_space c) && all_valid s

unfoldable pub valid_input : Bytes → Bool
unfolding is_alnum
valid_input [] = false
valid_input (c ∷ s) = all_valid (c ∷ s)

-- one round of the loop; `colorNames[i]` has to be there
pub json_color : Bytes → Bytes → Bytes
json_color hex name =
    codes "\n{\n\"hex\":\"" ++ (hex ++ (codes "\", \"name\":\"" ++ (name ++ codes "\"\n},")))

unfoldable pub json_colors : List Bytes → List Bytes → ℕ → Run Bytes
json_colors [] color_names i = ok []
json_colors (hex ∷ colors) color_names i = do
  name ← at (get_elem? color_names i)
  rest ← json_colors colors color_names (i + 1)
  ok (json_color hex name ++ rest)

-- `seekp(-1, cur)`: what is written next overwrites the last byte
abbrev pub without_last : Bytes → Bytes
without_last s = take (length s - 1) s

unfoldable pub generate_json_response : List Bytes → List Bytes → Run Bytes
unfolding json_colors
generate_json_response colors color_names = do
  written ← json_colors colors color_names 0
  ok (without_last (codes "{\n\"Palette\": {\"colors\": [" ++ written) ++ codes "]\n}\n}\n")
