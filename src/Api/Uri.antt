-- ===== src/Api/Uri.antt =====
-- `split`, `is_number` and `isFileNumber` (src/request_handler/api_handler.cc).
pub mod Parts
use server_spring.Base.{
  ℕ, Bool, true, false, ◌&&◌, List, [], ◌∷◌, ◌++◌, Bytes, ◌==◌, get_elem?, Run, ok, undefined, at,
  ◌≡◌, arith, if◌then◌else◌,
}
use server_spring.Number.{is_digit}
use server_spring.Number.Printing.{IsDigits}

-- a part of `getline`, left out where it is empty
abbrev pub push_part : Bytes → List Bytes → List Bytes
push_part [] parts = parts
push_part (c ∷ s) parts = (c ∷ s) ∷ parts

pub parts_from : ℕ → Bytes → Bytes → List Bytes
parts_from delim item [] = push_part item []
parts_from delim item (c ∷ s) =
    let closed = push_part item (parts_from delim [] s) in
    let longer = parts_from delim (item ++ c ∷ []) s in if c == delim then closed else longer

-- `result.erase(result.begin())` of what is left: there has to be a part
abbrev pub erase_first : List Bytes → Run (List Bytes)
erase_first [] = undefined
erase_first (part ∷ parts) = ok parts

unfoldable pub split : Bytes → ℕ → Run (List Bytes)
unfolding parts_from
split s delim = erase_first (parts_from delim [] s)

-- `uri[0]` and `uri[1]`
abbrev pub extract_entity : List Bytes → Run Bytes
extract_entity uri = at (get_elem? uri 0)

abbrev pub extract_file_name : List Bytes → Run Bytes
extract_file_name uri = at (get_elem? uri 1)

all_digits : Bytes → Bool
all_digits [] = true
all_digits (c ∷ s) = is_digit c && all_digits s

unfoldable pub is_number : Bytes → Bool
unfolding all_digits
is_number [] = false
is_number (c ∷ s) = all_digits (c ∷ s)

unfoldable pub is_file_number : List Bytes → Bool
unfolding is_number
is_file_number (entity ∷ file_no ∷ []) = is_number file_no
is_file_number _ = true

all_digits-IsDigits : (s : Bytes) → all_digits s ≡ true → IsDigits s
unfolding all_digits
all_digits-IsDigits [] h = tt
all_digits-IsDigits (c ∷ s) h = (ground (arith, h), all_digits-IsDigits s (ground (arith, h)))

pub is_number-IsDigits : (s : Bytes) → is_number s ≡ true → IsDigits s
unfolding is_number
is_number-IsDigits [] h = tt
is_number-IsDigits (c ∷ s) h = all_digits-IsDigits (c ∷ s) h
