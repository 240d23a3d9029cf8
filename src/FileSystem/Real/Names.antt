-- ===== src/FileSystem/Real/Names.antt =====
-- The number that the real file system gives to a new file.
use server_spring.Base.{
  ℕ, ◌+◌, ◌≤◌, ◌<◌, ◌≡◌, ◌≢◌, ap, ◌∙◌, arith, List, [], ◌∷◌, Bytes, ok, >>=-eq-ok, All,
}
use server_spring.Number.{pos, int_max, stoi}
use server_spring.Number.Printing.{decimal, stoi-decimal}
use server_spring.FileSystem.Real.{largest_file, next_name}

-- a stem that is a number, if it is one, is at most `m`
abbrev pub AtMost : ℕ → Bytes → Type 0
AtMost m stem = (k : ℕ) → stoi stem ≡ ok (pos k) → k ≤ m

largest_file-AtMost :
    (stems : List Bytes) (l m : ℕ) → largest_file stems l ≡ ok m → (l ≤ m) × All (AtMost m) stems
unfolding largest_file
largest_file-AtMost [] l m h = (ground arith, tt)
largest_file-AtMost (stem ∷ stems) l m h =
    let (n, one, rest) = >>=-eq-ok (stoi stem) _ h in
    let (le, all) = largest_file-AtMost stems _ m rest in
    (ground (arith, le), ((λ k e. ground (arith, one, e, le)), all))

next_name_lem :
    (stems : List Bytes) (n : ℕ)
    → next_name stems ≡ ok n
    → (m : ℕ) × (largest_file stems 0 ≡ ok m) × (n ≡ m + 1) × (m < int_max)
unfolding next_name
next_name_lem stems n h =
    let (m, e, rest) = >>=-eq-ok (largest_file stems 0) _ h in (m, e, ground arith, ground arith)

-- A new number is positive, fits `int`, and is above every number among the stems.
pub next_name-AtMost :
    (stems : List Bytes) (n : ℕ)
    → next_name stems ≡ ok n
    → (1 ≤ n) × (n ≤ int_max) × All (λ stem. (k : ℕ) → stoi stem ≡ ok (pos k) → k < n) stems
next_name-AtMost stems n h =
    let (m, e, next, bound) = next_name_lem stems n h in
    (omega arith, omega arith, below m stems (largest_file-AtMost stems 0 m e).1 next)
  where
    below :
        (m : ℕ) (ss : List Bytes)
        → All (AtMost m) ss
        → n ≡ m + 1
        → All (λ stem. (k : ℕ) → stoi stem ≡ ok (pos k) → k < n) ss
    below m [] a next = tt
    below m (s ∷ ss) (a, rest) next = ((λ k e. omega (arith, a k e)), below m ss rest next)

-- so that its decimal is none of them
pub next_name-ne :
    (stems : List Bytes) (n : ℕ) → next_name stems ≡ ok n → All (λ stem. stem ≢ decimal n) stems
next_name-ne stems n h =
    let (one, fits, above) = next_name-AtMost stems n h in apart stems fits above
  where
    apart :
        (ss : List Bytes)
        → n ≤ int_max
        → All (λ stem. (k : ℕ) → stoi stem ≡ ok (pos k) → k < n) ss
        → All (λ stem. stem ≢ decimal n) ss
    apart [] fits a = tt
    apart (s ∷ ss) fits (a, rest) =
        ((λ e. absurd (omega (arith, a n (ap stoi e ∙ stoi-decimal n fits)))), apart ss fits rest)
