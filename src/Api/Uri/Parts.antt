-- ===== src/Api/Uri/Parts.antt =====
-- `split` of a target with one part more.
use server_spring.Base.{
  ℕ, ◌≡◌, ◌≢◌, refl, ap, ◌∙◌, arith, true, false, List, [], ◌∷◌, ◌++◌, append-nil, append_assoc,
  Bytes, All, c_str, ◌==◌, ok, ok-injective, Bool-cases, inl, inr,
}
use server_spring.Number.{is_digit}
use server_spring.Number.Printing.{IsDigits}
use server_spring.Api.Uri.{push_part, parts_from, erase_first, split, all_digits, is_number}

==-same : (n : ℕ) → (n == n) ≡ true
==-same n = ground arith

==-apart : (n m : ℕ) → n ≢ m → (n == m) ≡ false
==-apart n m h = ground (arith, h)

push_part-append :
    (item : Bytes) (xs ys : List Bytes) → push_part item (xs ++ ys) ≡ push_part item xs ++ ys
push_part-append [] xs ys = refl
push_part-append (c ∷ item) xs ys = refl

parts_from-append :
    (delim : ℕ) (item s t : Bytes)
    → parts_from delim item (s ++ (delim ∷ t)) ≡ parts_from delim item s ++ parts_from delim [] t
unfolding parts_from
parts_from-append delim item [] t =
    rw (==-same delim) (push_part-append item [] (parts_from delim [] t))
parts_from-append delim item (c ∷ s) t = elim (Bool-cases (c == delim)) [
  | inl e ↦ rw e (ap (push_part item) (parts_from-append delim [] s t) ∙ push_part-append item _ _)
  | inr e ↦ rw e (parts_from-append delim (item ++ c ∷ []) s t)
]

parts_from-one :
    (delim : ℕ) (item t : Bytes)
    → All (λ c. c ≢ delim) t
    → parts_from delim item t ≡ push_part (item ++ t) []
unfolding parts_from
parts_from-one delim item [] h = rw append-nil refl
parts_from-one delim item (c ∷ t) (n, h) = rw (==-apart c delim n) (
    parts_from-one delim (item ++ c ∷ []) t h
    ∙ ap (λ s. push_part s []) (append_assoc item (c ∷ []) t))

digits-apart : (s : Bytes) → IsDigits s → All (λ c. c ≢ b'/') s
unfolding is_digit
digits-apart [] h = tt
digits-apart (c ∷ s) (p, h) = (λ e. ground (arith, p, e), digits-apart s h)

digits-part : (s : Bytes) → IsDigits s → s ≢ [] → parts_from b'/' [] s ≡ s ∷ []
digits-part [] h n = absurd (n refl)
digits-part (c ∷ s) h n = parts_from-one b'/' [] (c ∷ s) (digits-apart (c ∷ s) h)

erase_first-append :
    (parts : List Bytes) (uri : List Bytes) (d : Bytes)
    → erase_first parts ≡ ok uri
    → erase_first (parts ++ d ∷ []) ≡ ok (uri ++ d ∷ [])
erase_first-append [] uri d h = absurd cc
erase_first-append (p ∷ parts) uri d h = rw (ok-injective h) refl

-- A target with a number behind it has one part more.
pub split-append :
    (t : Bytes) (uri : List Bytes) (s : Bytes)
    → split t b'/' ≡ ok uri
    → IsDigits s
    → s ≢ []
    → split (t ++ (b'/' ∷ s)) b'/' ≡ ok (uri ++ s ∷ [])
unfolding split
split-append t uri s h digits n =
    ap erase_first
      (parts_from-append b'/' [] t s ∙ ap (◌++◌ (parts_from b'/' [] t)) (digits-part s digits n))
    ∙ erase_first-append (parts_from b'/' [] t) uri s h

pub c_str-digits : (s : Bytes) → IsDigits s → c_str s ≡ s
unfolding c_str is_digit
c_str-digits [] h = refl
c_str-digits (c ∷ s) (p, h) = ground (arith, c_str-digits s h, p)

pub c_str-append_digits :
    (t s : Bytes) → IsDigits s → c_str (c_str t ++ (b'/' ∷ s)) ≡ c_str t ++ (b'/' ∷ s)
unfolding c_str
c_str-append_digits [] s h = ap (◌∷◌ b'/') (c_str-digits s h)
c_str-append_digits (c ∷ t) s h = elim (Bool-cases (c == 0)) [
  | inl e ↦ rw e (ap (◌∷◌ b'/') (c_str-digits s h))
  | inr e ↦ rw (e, c_str) (rw e (ap (◌∷◌ c) (c_str-append_digits t s h)))
]

all_digits-IsDigits : (s : Bytes) → IsDigits s → all_digits s ≡ true
unfolding all_digits
all_digits-IsDigits [] h = refl
all_digits-IsDigits (c ∷ s) (p, h) = ground (arith, p, all_digits-IsDigits s h)

pub IsDigits-is_number : (s : Bytes) → IsDigits s → s ≢ [] → is_number s ≡ true
unfolding is_number
IsDigits-is_number [] h n = absurd (n refl)
IsDigits-is_number (c ∷ s) h n = all_digits-IsDigits (c ∷ s) h
