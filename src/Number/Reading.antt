-- ===== src/Number/Reading.antt =====
-- Reading a number that starts with a digit.
use server_spring.Base.{
  ℕ, ◌≡◌, refl, ap, ◌∙◌, arith, true, false, ◌∷◌, Bytes, leb, if◌then◌else◌, some, ok, throws,
  undefined, out_of_range,
}
use server_spring.Number.{
  pos, int_max, is_digit, is_space, leading, skip_space, take_sign, to_int, read_int, atoi_result,
  stoi_result, atoi, stoi,
}

skip_space-digit : (c : ℕ) (s : Bytes) → is_digit c ≡ true → skip_space (c ∷ s) ≡ c ∷ s
unfolding skip_space is_space is_digit
skip_space-digit c s h = ground arith

take_sign-digit : (c : ℕ) (s : Bytes) → is_digit c ≡ true → take_sign (c ∷ s) ≡ (false, c ∷ s)
unfolding take_sign is_digit
take_sign-digit c s h = ground arith

read_int-digit :
    (c : ℕ) (s : Bytes)
    → is_digit c ≡ true
    → read_int (c ∷ s) ≡ some (to_int false (leading 0 (c ∷ s)))
unfolding read_int
read_int-digit c s h = rw (skip_space-digit c s h, take_sign-digit c s h, h)

atoi_result-to_int :
    (n : ℕ)
    → atoi_result (some (to_int false n)) ≡ (if leb n int_max then ok (pos n) else undefined)
unfolding to_int
atoi_result-to_int n = ground arith

stoi_result-to_int :
    (n : ℕ)
    → stoi_result (some (to_int false n))
      ≡ (if leb n int_max then ok (pos n) else throws out_of_range)
unfolding to_int
stoi_result-to_int n = ground arith

atoi_lem : (s : Bytes) → atoi s ≡ atoi_result (read_int s)
unfolding atoi
atoi_lem s = refl

stoi_lem : (s : Bytes) → stoi s ≡ stoi_result (read_int s)
unfolding stoi
stoi_lem s = refl

-- On digits `atoi` is defined exactly up to the largest `int`.
pub atoi-digit :
    (c : ℕ) (s : Bytes)
    → is_digit c ≡ true
    → atoi (c ∷ s)
      ≡ (if leb (leading 0 (c ∷ s)) int_max then ok (pos (leading 0 (c ∷ s))) else undefined)
atoi-digit c s h =
    atoi_lem (c ∷ s)
    ∙ ap atoi_result (read_int-digit c s h)
    ∙ atoi_result-to_int (leading 0 (c ∷ s))

pub stoi-digit :
    (c : ℕ) (s : Bytes)
    → is_digit c ≡ true
    → stoi (c ∷ s) ≡ (
        if leb (leading 0 (c ∷ s)) int_max
        then ok (pos (leading 0 (c ∷ s)))
        else throws out_of_range)
stoi-digit c s h =
    stoi_lem (c ∷ s)
    ∙ ap stoi_result (read_int-digit c s h)
    ∙ stoi_result-to_int (leading 0 (c ∷ s))
