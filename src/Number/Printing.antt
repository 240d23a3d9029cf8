-- ===== src/Number/Printing.antt =====
-- `std::to_string` of an `int`, and what `std::stoi` reads back.
use mathlib.Core.List.{concat-ne-nil}
use server_spring.Base.{
  ◌≢◌, ℕ, zero, suc, ◌+◌, ◌-◌, ◌*◌, ◌/◌, ◌%◌, ◌<◌, ◌≤◌, ◌≡◌, ◌∙◌, refl, arith, true, ltb, [], ◌∷◌,
  ◌++◌, Bytes, All, All-append, Bool-cases, inl, inr, ok, if◌then◌else◌,
}
use server_spring.Number.{ℤ, pos, negsuc, is_digit, int_max, leading, stoi}
use server_spring.Number.Reading.{stoi-digit}

-- on fuel; a number has fewer digits than it has units, and one more
unfoldable pub decimal_from : ℕ → ℕ → Bytes
decimal_from zero n = []
decimal_from (suc fuel) n =
    let front = decimal_from fuel (n / 10) in
    if ltb n 10 then (b'0' + n) ∷ [] else front ++ (b'0' + n % 10) ∷ []

unfoldable pub decimal : ℕ → Bytes
decimal n = decimal_from (suc n) n

unfoldable pub to_string : ℤ → Bytes
unfolding decimal decimal_from
to_string (pos n) = decimal n
to_string (negsuc n) = b'-' ∷ decimal (suc n)

abbrev pub IsDigits : Bytes → Type 0
IsDigits = All (λ c. is_digit c ≡ true)

leading-append :
    (s : Bytes) (acc d : ℕ)
    → IsDigits s
    → is_digit d ≡ true
    → leading acc (s ++ d ∷ []) ≡ leading acc s * 10 + (d - b'0')
unfolding leading
leading-append [] acc d h k = rw k
leading-append (c ∷ s) acc d (p, h) k = rw p (leading-append s (acc * 10 + (c - b'0')) d h k)

digit : (n : ℕ) → n < 10 → is_digit (b'0' + n) ≡ true
unfolding is_digit
digit n h = ground arith

decimal_from-IsDigits : (fuel n : ℕ) → IsDigits (decimal_from fuel n)
unfolding decimal_from
decimal_from-IsDigits zero n = tt
decimal_from-IsDigits (suc fuel) n = elim (Bool-cases (ltb n 10)) [
  | inl e ↦ rw e (digit n (ground arith), tt)
  | inr e ↦ rw e (
      All-append _ (decimal_from fuel (n / 10)) _ (decimal_from-IsDigits fuel (n / 10))
        (digit (n % 10) (omega arith), tt))
]

leading_one : (d : ℕ) → is_digit d ≡ true → leading 0 (d ∷ []) ≡ d - b'0'
unfolding leading
leading_one d k = rw k (omega arith)

leading-decimal_from : (fuel n : ℕ) → n < fuel → leading 0 (decimal_from fuel n) ≡ n
unfolding decimal_from
leading-decimal_from zero n h = elim h [ ]
leading-decimal_from (suc fuel) n h = elim (Bool-cases (ltb n 10)) [
  | inl e ↦ rw e (leading_one _ (digit n (ground arith)) ∙ omega arith)
  | inr e ↦ rw e (
      leading-append (decimal_from fuel (n / 10)) 0 _ (decimal_from-IsDigits fuel (n / 10))
        (digit (n % 10) (omega arith))
      ∙ omega (arith, leading-decimal_from fuel (n / 10) (ground arith)))
]

leading-decimal : (n : ℕ) → leading 0 (decimal n) ≡ n
unfolding decimal
leading-decimal n = leading-decimal_from (suc n) n (omega arith)

pub decimal-IsDigits : (n : ℕ) → IsDigits (decimal n)
unfolding decimal
decimal-IsDigits n = decimal_from-IsDigits (suc n) n

pub decimal-ne-nil : (n : ℕ) → decimal n ≢ []
unfolding decimal decimal_from
decimal-ne-nil n h = elim (Bool-cases (ltb n 10)) [
  | inl e ↦ cc (rw e at h)
  | inr e ↦ concat-ne-nil _ _ (rw e at h)
]

stoi-IsDigits :
    (s : Bytes) (n : ℕ) → IsDigits s → s ≢ [] → leading 0 s ≡ n → n ≤ int_max → stoi s ≡ ok (pos n)
stoi-IsDigits [] n h k e b = absurd (k refl)
stoi-IsDigits (c ∷ s) n (p, h) k e b = stoi-digit c s p ∙ rw e (ground arith)

-- `std::stoi` reads back what `std::to_string` wrote of a number that is not negative.
pub stoi-decimal : (n : ℕ) → n ≤ int_max → stoi (decimal n) ≡ ok (pos n)
stoi-decimal n h =
    stoi-IsDigits (decimal n) n (decimal-IsDigits n) (decimal-ne-nil n) (leading-decimal n) h

pub to_string-pos : (n : ℕ) → to_string (pos n) ≡ decimal n
unfolding to_string
to_string-pos n = refl
