-- ===== src/Config/Port/Report/Silence.antt =====
-- Where `getPort` finds no port without a word (src/config_parser.cc).
use server_spring.Base.{
  zero, suc, Bool, true, false, ◌||◌, ◌≡◌, ◌↔◌, refl, arith, List, [], ◌∷◌, ◌++◌, Bytes, c_str, leb,
  Option, none, some, Run, ok, throws, undefined, spent, Bool-cases, inl, inr,
}
use server_spring.Number.{ℤ, pos, negsuc, atoi}
use server_spring.Log.{Line, Logged, write, follow}
use server_spring.Config.Types.{simple, block, NginxConfig, empty, add}
use server_spring.Config.Port.{is_digits, no_port, listen_token, get_port}
use server_spring.Config.Port.Report.{
  check_logged, listen_logged, own_logged, first_logged, unless_logged, child_logged,
  get_port_logged, get_port_logged-outcome,
}

-- a statement `listen` with one word behind it
abbrev is_listen : List Bytes → Bool
is_listen ts = elim (listen_token ts) [ some token ↦ true | none ↦ false ]

-- among the statements without a block
abbrev has_own : NginxConfig → Bool
has_own empty = false
has_own (add (block ts b) c) = has_own c
has_own (add (simple ts) c) = is_listen ts || has_own c

-- in the blocks, at any depth
abbrev has_child : NginxConfig → Bool
has_child empty = false
has_child (add (simple ts) c) = has_child c
has_child (add (block ts b) c) = (has_own b || has_child b) || has_child c

abbrev pub has_listen : NginxConfig → Bool
has_listen c = has_own c || has_child c

-- -1, and no line
abbrev pub IsQuiet : Logged ℤ → Type 0
IsQuiet m = (m.outcome ≡ ok no_port) × (m.lines ≡ [])

check-loud : (p : ℤ) → IsQuiet (check_logged p) → ⊥
check-loud (pos n) (h, k) = elim (Bool-cases (leb n 65535)) [
  | inl e ↦ cc (rw e at h)
  | inr e ↦ cc (rw e at k)
]
check-loud (negsuc n) (h, k) = cc

follow-loud : (m : Run ℤ) → IsQuiet (follow m check_logged) → ⊥
follow-loud (ok p) q = check-loud p q
follow-loud (throws e) (h, k) = cc
follow-loud undefined (h, k) = cc
follow-loud spent (h, k) = cc

listen-loud : (token : Bytes) → IsQuiet (listen_logged token) → ⊥
unfolding listen_logged
listen-loud token (h, k) = elim (Bool-cases (is_digits (c_str token))) [
  | inl e ↦ follow-loud (atoi (c_str token)) (rw e at h, rw e at k)
  | inr e ↦ cc (rw e at k)
]

-- what the first loop gives, and whether it has a `listen` statement
data Own : Option (Logged ℤ) → Bool → Type 0 where
  absent : Own none false
  present : (m : Logged ℤ) → (IsQuiet m → ⊥) → Own (some m) true

Own-rest :
    (o : Option Bytes) (m : Option (Logged ℤ)) (b : Bool)
    → Own m b
    → Own
        (elim o [ some token ↦ some (listen_logged token) | none ↦ m ])
        (elim o [ some token ↦ true | none ↦ false ] || b)
Own-rest none m b h = h
Own-rest (some token) m b h = present _ (listen-loud token)

own_logged-Own : (c : NginxConfig) → Own (own_logged c) (has_own c)
unfolding own_logged
own_logged-Own empty = absent
own_logged-Own (add (block ts b) c) = own_logged-Own c
own_logged-Own (add (simple ts) c) = Own-rest (listen_token ts) _ _ (own_logged-Own c)

first-IsQuiet :
    (o : Option (Logged ℤ)) (m : Logged ℤ) (b b' : Bool)
    → Own o b
    → IsQuiet m ↔ (b' ≡ false)
    → IsQuiet (first_logged o m) ↔ ((b || b') ≡ false)
first-IsQuiet _ m _ b' absent h = h
first-IsQuiet _ m _ b' (present n loud) h = (λ q. absurd (loud q), λ e. absurd cc)

both-nil : (ms ls : List Line) → ms ++ ls ≡ [] → (ms ≡ []) × (ls ≡ [])
both-nil [] ls h = (refl, h)
both-nil (m ∷ ms) ls h = absurd cc

-- a block, and what is behind it
abbrev then_search : List Line → Run ℤ → Logged ℤ → Logged ℤ
then_search ms r later = write ms (follow r (λ p. unless_logged p later))

then_search-IsQuiet :
    (ms : List Line) (r : Run ℤ) (later : Logged ℤ)
    → IsQuiet (then_search ms r later)
    → (r ≡ ok no_port) × (ms ≡ []) × IsQuiet later
then_search-IsQuiet ms (ok (negsuc zero)) later (h, k) =
    let (none_before, none_behind) = both-nil ms later.lines k in
    (refl, none_before, (h, none_behind))
then_search-IsQuiet ms (ok (negsuc (suc n))) later (h, k) = absurd cc
then_search-IsQuiet ms (ok (pos n)) later (h, k) = absurd cc
then_search-IsQuiet ms (throws e) later (h, k) = absurd cc
then_search-IsQuiet ms undefined later (h, k) = absurd cc
then_search-IsQuiet ms spent later (h, k) = absurd cc

next-IsQuiet :
    (m later : Logged ℤ) (b b' : Bool)
    → IsQuiet m ↔ (b ≡ false)
    → IsQuiet later ↔ (b' ≡ false)
    → IsQuiet (then_search m.lines m.outcome later) ↔ ((b || b') ≡ false)
next-IsQuiet m later b b' h h' = (
  λ q.
      let (r, ms, l) = then_search-IsQuiet m.lines m.outcome later q in
      let e : b ≡ false = h.0 (r, ms) in rw e (h'.0 l),
  λ e.
      let (r, ms) = h.1 (ground (arith, e)) in
      let (r', ls) = h'.1 (ground (arith, e)) in (rw r r', rw (r, ms) ls),
)

child_logged-IsQuiet : (c : NginxConfig) → IsQuiet (child_logged c) ↔ (has_child c ≡ false)
unfolding child_logged
child_logged-IsQuiet empty = (λ q. refl, λ e. (refl, refl))
child_logged-IsQuiet (add (simple ts) c) = child_logged-IsQuiet c
child_logged-IsQuiet (add (block ts b) c) =
    next-IsQuiet _ _ _ _ (first-IsQuiet _ _ _ _ (own_logged-Own b) (child_logged-IsQuiet b))
      (child_logged-IsQuiet c)

-- `getPort` with its log ends as without it, and returns -1 without a line exactly where the config
-- has no statement `listen` with one word, at any depth.
pub get_port_logged-IsQuiet :
    (c : NginxConfig)
    → ((get_port_logged c).outcome ≡ get_port c)
      × (IsQuiet (get_port_logged c) ↔ (has_listen c ≡ false))
unfolding get_port_logged
get_port_logged-IsQuiet c =
    (get_port_logged-outcome c, first-IsQuiet _ _ _ _ (own_logged-Own c) (child_logged-IsQuiet c))
