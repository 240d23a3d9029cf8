-- ===== src/Config/Port/Laws.antt =====
-- The port that `getPort` returns.
use server_spring.Base.{
  ok-injective, ap, ◌∙◌, subst, zero, suc, >>=-eq-ok, ℕ, ◌≤◌, ◌≡◌, refl, inl, inr, arith, true,
  List, [], ◌∷◌, Bytes, codes, equal_iff, c_str, leb, some, Run, ok, undefined, if◌then◌else◌,
  Option-cases, Bool-cases,
}
use server_spring.Number.Reading.{atoi-digit}
use server_spring.Number.{is_digit, int_max, ℤ, pos, negsuc, leading, atoi}
use server_spring.Config.Types.{NginxConfigStatement, simple, block, NginxConfig, empty, add}
use server_spring.Config.Port.{
  check_port, is_digits, no_port, listen_port, listen_token, own_port, child_port, get_port,
  first_found, unless_found,
}

-- The statement `listen n;` stands in the config or in one of its blocks.
pub data Listens (n : ℕ) : NginxConfig → Type 0 where
  here :
      {t : Bytes} {c : NginxConfig}
      → is_digits (c_str t) ≡ true
      → leading 0 (c_str t) ≡ n
      → Listens n (add (simple (codes "listen" ∷ t ∷ [])) c)
  later : {s : NginxConfigStatement} {c : NginxConfig} → Listens n c → Listens n (add s c)
  within : {ts : List Bytes} {b c : NginxConfig} → Listens n b → Listens n (add (block ts b) c)

-- what `getPort` may return on `c`
abbrev pub PortOf : NginxConfig → ℤ → Type 0
PortOf c (pos n) = (n ≤ 65535) × Listens n c
PortOf c (negsuc n) = n ≡ 0

is_digits-cons : (c : ℕ) (s : Bytes) → is_digits (c ∷ s) ≡ true → is_digit c ≡ true
unfolding is_digits
is_digits-cons c s h = ground arith

is_digits-nil : is_digits [] ≡ true → ⊥
unfolding is_digits
is_digits-nil h = cc

atoi-is_digits :
    (s : Bytes)
    → is_digits s ≡ true
    → atoi s ≡ (if leb (leading 0 s) int_max then ok (pos (leading 0 s)) else undefined)
atoi-is_digits [] d = absurd (is_digits-nil d)
atoi-is_digits (c ∷ s) d = atoi-digit c s (is_digits-cons c s d)

-- the number of a `listen` statement, by its bytes
pub listen_port-cases :
    (t : Bytes)
    → listen_port t ≡ (
        if is_digits (c_str t)
        then if leb (leading 0 (c_str t)) int_max
          then check_port (pos (leading 0 (c_str t)))
          else undefined
        else ok no_port)
unfolding listen_port
listen_port-cases t = elim (Bool-cases (is_digits (c_str t))) [
  | inl d ↦ rw (d, atoi-is_digits (c_str t) d) (ground arith)
  | inr d ↦ rw d
]

module _ (t : Bytes) where
  abbrev Listened : ℤ → Type 0
  Listened (pos n) = (n ≤ 65535) × (is_digits (c_str t) ≡ true) × (leading 0 (c_str t) ≡ n)
  Listened (negsuc n) = n ≡ 0

  listen_port-Listened : (p : ℤ) → listen_port t ≡ ok p → Listened p
  listen_port-Listened (pos n) h = ground (arith, listen_port-cases t)
  listen_port-Listened (negsuc n) h = ground (arith, listen_port-cases t)

listen_token-eq-some :
    (ts : List Bytes) (t : Bytes) → listen_token ts ≡ some t → ts ≡ codes "listen" ∷ t ∷ []
unfolding listen_token
listen_token-eq-some [] t h = cc
listen_token-eq-some (a ∷ []) t h = cc
listen_token-eq-some (a ∷ b ∷ []) t h = ground (arith, equal_iff a (codes "listen"))
listen_token-eq-some (a ∷ b ∷ c ∷ ts) t h = cc

later-PortOf :
    (s : NginxConfigStatement) (c : NginxConfig) (p : ℤ) → PortOf c p → PortOf (add s c) p
later-PortOf s c (pos n) (h, l) = (h, later l)
later-PortOf s c (negsuc n) h = h

within-PortOf :
    (ts : List Bytes) (b c : NginxConfig) (p : ℤ) → PortOf b p → PortOf (add (block ts b) c) p
within-PortOf ts b c (pos n) (h, l) = (h, within l)
within-PortOf ts b c (negsuc n) h = h

here-PortOf :
    (t : Bytes) (c : NginxConfig) (p : ℤ)
    → Listened t p
    → PortOf (add (simple (codes "listen" ∷ t ∷ [])) c) p
here-PortOf t c (pos n) (h, d, e) = (h, here d e)
here-PortOf t c (negsuc n) h = h

own_port-PortOf :
    (c : NginxConfig) (r : Run ℤ) (p : ℤ) → own_port c ≡ some r → r ≡ ok p → PortOf c p
unfolding own_port
own_port-PortOf empty r p h k = cc
own_port-PortOf (add (block ts b) c) r p h k =
    later-PortOf (block ts b) c p (own_port-PortOf c r p h k)
own_port-PortOf (add (simple ts) c) r p h k = elim (Option-cases (listen_token ts)) [
  | inl e ↦ later-PortOf (simple ts) c p (own_port-PortOf c r p (ground arith) k)
  | inr (t, e) ↦
      rw (listen_token-eq-some ts t e) (here-PortOf t c p (listen_port-Listened t p (ground arith)))
]

first_found-PortOf :
    (c : NginxConfig) (later : Run ℤ) (p : ℤ)
    → ((p : ℤ) → later ≡ ok p → PortOf c p)
    → first_found (own_port c) later ≡ ok p
    → PortOf c p
first_found-PortOf c m p ih h = elim (Option-cases (own_port c)) [
  | inl e ↦ ih p (ground arith)
  | inr (r, e) ↦ own_port-PortOf c r p e (ground arith)
]

unless_found-PortOf :
    (ts : List Bytes) (b c : NginxConfig) (q p : ℤ) (later : Run ℤ)
    → PortOf b q
    → (later ≡ ok p → PortOf c p)
    → unless_found q later ≡ ok p
    → PortOf (add (block ts b) c) p
unless_found-PortOf ts b c (pos n) p m i k h =
    within-PortOf ts b c p (subst (PortOf b) (ok-injective h) i)
unless_found-PortOf ts b c (negsuc zero) p m i k h = later-PortOf (block ts b) c p (k h)
unless_found-PortOf ts b c (negsuc (suc n)) p m i k h = absurd (omega arith)

child_port-PortOf : (c : NginxConfig) (p : ℤ) → child_port c ≡ ok p → PortOf c p
unfolding child_port
child_port-PortOf empty (pos n) h = cc
child_port-PortOf empty (negsuc n) h = ground arith
child_port-PortOf (add (simple ts) c) p h = later-PortOf (simple ts) c p (child_port-PortOf c p h)
child_port-PortOf (add (block ts b) c) p h =
    let (q, found, rest) =
      >>=-eq-ok (first_found (own_port b) (child_port b)) (λ q. unless_found q (child_port c)) h in
    unless_found-PortOf ts b c q p (child_port c)
      (first_found-PortOf b (child_port b) q (child_port-PortOf b) found) (child_port-PortOf c p)
      rest

-- Whatever `getPort` returns is -1, or a number up to 65535 that a statement `listen n;` of the
-- config or of one of its blocks gives in digits.
pub get_port-PortOf : (c : NginxConfig) (p : ℤ) → get_port c ≡ ok p → PortOf c p
unfolding get_port
get_port-PortOf c p h = first_found-PortOf c (child_port c) p (child_port-PortOf c) h

listen_token-listen : (t : Bytes) → listen_token (codes "listen" ∷ t ∷ []) ≡ some t
unfolding listen_token
listen_token-listen t = rw ((equal_iff (codes "listen") (codes "listen")).1 refl)

own_port-listen :
    (t : Bytes) (c : NginxConfig)
    → own_port (add (simple (codes "listen" ∷ t ∷ [])) c) ≡ some (listen_port t)
unfolding own_port
own_port-listen t c = rw (listen_token-listen t, own_port)

-- A first statement `listen t;` alone decides the port, on every branch: the number of `t` up to
-- 65535; -1 beyond that, or if `t` up to its first NUL is not made of digits; and undefined
-- behaviour (of `atoi`) if the number is above the largest `int`.
pub get_port-listen :
    (t : Bytes) (c : NginxConfig)
    → get_port (add (simple (codes "listen" ∷ t ∷ [])) c) ≡ (
        if is_digits (c_str t)
        then if leb (leading 0 (c_str t)) int_max
          then if leb (leading 0 (c_str t)) 65535
            then ok (pos (leading 0 (c_str t)))
            else ok no_port
          else undefined
        else ok no_port)
unfolding get_port
get_port-listen t c =
    ap (λ o. first_found o (child_port c)) (own_port-listen t c) ∙ listen_port-cases t
