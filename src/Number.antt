-- ===== src/Number.antt =====
-- Integers read from text as the C++ library reads them: `atoi` and `std::stoi` skip white space,
-- take a sign and the digits that follow, and ignore the rest.
pub mod Reading
pub mod Printing
use server_spring.Base.{
  ℕ, suc, ◌+◌, ◌-◌, ◌*◌, Bool, true, false, ◌&&◌, ◌||◌, [], ◌∷◌, Bytes, leb, ◌==◌, if◌then◌else◌,
  Option, none, some, Run, ok, throws, undefined, invalid_argument, out_of_range,
}

-- `negsuc n` is -(n + 1).
pub data ℤ : Type 0 where
  pos : ℕ → ℤ
  negsuc : ℕ → ℤ

abbrev pub int_max : ℕ
int_max = 2147483647

unfoldable pub is_digit : ℕ → Bool
is_digit c = leb b'0' c && leb c b'9'

-- `isspace` of the C locale
unfoldable pub is_space : ℕ → Bool
is_space c = c == b' ' || (leb 9 c && leb c 13)

-- the number that the leading digits denote, behind digits that denote `acc`
unfoldable pub leading : ℕ → Bytes → ℕ
leading acc [] = acc
leading acc (c ∷ s) =
    let more = leading (acc * 10 + (c - b'0')) s in if is_digit c then more else acc

abbrev pub starts_digit : Bytes → Bool
starts_digit [] = false
starts_digit (c ∷ s) = is_digit c

pub skip_space : Bytes → Bytes
skip_space [] = []
skip_space (c ∷ s) = if is_space c then skip_space s else c ∷ s

-- the sign (true for '-') and what follows it
pub take_sign : Bytes → Bool × Bytes
take_sign [] = (false, [])
take_sign (c ∷ s) =
    if c == b'-' then (true, s) else if c == b'+' then (false, s) else (false, c ∷ s)

-- the value within the range of `int`
pub to_int : Bool → ℕ → Option ℤ
to_int negative n =
    if leb n int_max
    then (if negative && leb 1 n then some (negsuc (n - 1)) else some (pos n))
    else if negative && n == suc int_max
    then some (negsuc int_max)
    else none

-- `none` where there are no digits; the inner `none` where `int` cannot hold the value
pub read_int : Bytes → Option (Option ℤ)
read_int s =
    let (negative, t) = take_sign (skip_space s) in
    if starts_digit t then some (to_int negative (leading 0 t)) else none

-- `atoi`, undefined out of range
abbrev atoi_result : Option (Option ℤ) → Run ℤ
atoi_result none = ok (pos 0)
atoi_result (some none) = undefined
atoi_result (some (some n)) = ok n

unfoldable pub atoi : Bytes → Run ℤ
unfolding read_int to_int take_sign skip_space is_space is_digit leading
atoi s = atoi_result (read_int s)

-- `std::stoi`
abbrev stoi_result : Option (Option ℤ) → Run ℤ
stoi_result none = throws invalid_argument
stoi_result (some none) = throws out_of_range
stoi_result (some (some n)) = ok n

unfoldable pub stoi : Bytes → Run ℤ
unfolding read_int to_int take_sign skip_space is_space is_digit leading
stoi s = stoi_result (read_int s)
