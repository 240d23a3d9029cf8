-- ===== src/Config/Port/Report.antt =====
-- The lines that `getPort` writes to the log (src/config_parser.cc).
pub mod Silence
use server_spring.Base.{
  ℕ, zero, suc, Bool, true, false, ◌||◌, ◌≡◌, refl, sym, ◌∙◌, ap, arith, List, [], ◌∷◌, ◌++◌, Bytes,
  codes, c_str, leb, Option, none, some, Run, ok, ◌>>=◌, if◌then◌else◌, Bool-cases, inl, inr,
}
use server_spring.Number.{ℤ, pos, negsuc, atoi}
use server_spring.Log.{Severity, Line, logged, Logged, write, follow, silent, told, follow-outcome}
use server_spring.Config.Types.{simple, block, NginxConfig, empty, add}
use server_spring.Config.Port.{
  is_digits, no_port, check_port, listen_port, listen_token, own_port, first_found, unless_found,
  child_port, get_port,
}

abbrev pub non_numeric : Line
non_numeric =
    logged Severity.error
      (codes "  " ++ codes "Specified port number contained non-numeric values.\n")

abbrev pub not_in_range : Line
not_in_range =
    logged Severity.error
      (codes "  " ++ codes "Specified port number not in valid range [0-65535].\n")

abbrev check_logged : ℤ → Logged ℤ
check_logged (pos n) = if leb n 65535 then silent (ok (pos n)) else told not_in_range no_port
check_logged (negsuc n) = told not_in_range no_port

pub listen_logged : Bytes → Logged ℤ
listen_logged token =
    if is_digits (c_str token)
    then follow (atoi (c_str token)) check_logged
    else told non_numeric no_port

pub own_logged : NginxConfig → Option (Logged ℤ)
own_logged empty = none
own_logged (add (block ts b) c) = own_logged c
own_logged (add (simple ts) c) = elim (listen_token ts) [
  | some token ↦ some (listen_logged token)
  | none ↦ own_logged c
]

abbrev pub first_logged : Option (Logged ℤ) → Logged ℤ → Logged ℤ
first_logged none later = later
first_logged (some m) later = m

abbrev pub unless_logged : ℤ → Logged ℤ → Logged ℤ
unless_logged (negsuc (suc n)) later = silent (ok (negsuc (suc n)))
unless_logged (negsuc zero) later = later
unless_logged (pos n) later = silent (ok (pos n))

pub child_logged : NginxConfig → Logged ℤ
child_logged empty = silent (ok no_port)
child_logged (add (simple ts) c) = child_logged c
child_logged (add (block ts b) c) =
    let m = first_logged (own_logged b) (child_logged b) in
    write m.lines (follow m.outcome (λ p. unless_logged p (child_logged c)))

-- `getPort` with its log
pub get_port_logged : NginxConfig → Logged ℤ
get_port_logged c = first_logged (own_logged c) (child_logged c)

check_logged-outcome : (p : ℤ) → (check_logged p).outcome ≡ check_port p
check_logged-outcome (pos n) = elim (Bool-cases (leb n 65535)) [
  | inl e ↦ rw e refl
  | inr e ↦ rw e refl
]
check_logged-outcome (negsuc n) = refl

listen_logged-outcome : (token : Bytes) → (listen_logged token).outcome ≡ listen_port token
unfolding listen_logged listen_port
listen_logged-outcome token = elim (Bool-cases (is_digits (c_str token))) [
  | inl e ↦ rw e (follow-outcome (atoi (c_str token)) check_logged check_port check_logged-outcome)
  | inr e ↦ rw e refl
]

-- the result of the first loop and of its logged form
data Same : Option (Run ℤ) → Option (Logged ℤ) → Type 0 where
  neither : Same none none
  both : (m : Logged ℤ) → Same (some m.outcome) (some m)

Same-some : (r : Run ℤ) (m : Logged ℤ) → m.outcome ≡ r → Same (some r) (some m)
Same-some r m e = rw (sym e) (both m)

Same-rest :
    (o : Option Bytes) (r : Option (Run ℤ)) (m : Option (Logged ℤ))
    → Same r m
    → Same
        (elim o [ some token ↦ some (listen_port token) | none ↦ r ])
        (elim o [ some token ↦ some (listen_logged token) | none ↦ m ])
Same-rest none r m h = h
Same-rest (some token) r m h = Same-some _ _ (listen_logged-outcome token)

own_logged-Same : (c : NginxConfig) → Same (own_port c) (own_logged c)
unfolding own_port own_logged
own_logged-Same empty = neither
own_logged-Same (add (block ts b) c) = own_logged-Same c
own_logged-Same (add (simple ts) c) = Same-rest (listen_token ts) _ _ (own_logged-Same c)

first_logged-outcome :
    (o : Option (Run ℤ)) (l : Option (Logged ℤ)) (r : Run ℤ) (m : Logged ℤ)
    → Same o l
    → m.outcome ≡ r
    → (first_logged l m).outcome ≡ first_found o r
first_logged-outcome _ _ r m neither e = e
first_logged-outcome _ _ r m (both n) e = refl

unless_logged-outcome :
    (p : ℤ) (m : Logged ℤ) (r : Run ℤ)
    → m.outcome ≡ r
    → (unless_logged p m).outcome ≡ unless_found p r
unless_logged-outcome (negsuc (suc n)) m r e = refl
unless_logged-outcome (negsuc zero) m r e = e
unless_logged-outcome (pos n) m r e = refl

child_logged-outcome : (c : NginxConfig) → (child_logged c).outcome ≡ child_port c
unfolding child_port child_logged
child_logged-outcome empty = refl
child_logged-outcome (add (simple ts) c) = child_logged-outcome c
child_logged-outcome (add (block ts b) c) =
    let inner = first_logged-outcome _ _ _ _ (own_logged-Same b) (child_logged-outcome b) in
    follow-outcome _ _ (λ p. unless_found p (child_port c))
      (λ p. unless_logged-outcome p _ _ (child_logged-outcome c))
    ∙ ap (λ m. m >>= λ p. unless_found p (child_port c)) inner

pub get_port_logged-outcome : (c : NginxConfig) → (get_port_logged c).outcome ≡ get_port c
unfolding get_port get_port_logged
get_port_logged-outcome c =
    first_logged-outcome _ _ _ _ (own_logged-Same c) (child_logged-outcome c)
