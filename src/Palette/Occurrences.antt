-- ===== src/Palette/Occurrences.antt =====
-- Where `std::string::find` finds a text, and where a text cannot occur again.
use server_spring.Base.{
  ℕ, zero, suc, ◌+◌, ◌-◌, ◌≤◌, ◌<◌, ◌≡◌, ◌≢◌, ◌∙◌, refl, ap, subst, sym, arith, Bool, true, false,
  [], ◌∷◌, Bytes, length, length-drop, drop, ltb, Option, none, some, All, Bool-cases, inl, inr,
}
use server_spring.Palette.Search.{starts_with, shift, find, find_from}

-- `needle` stands at position `i`
abbrev pub occurs : Bytes → Bytes → ℕ → Bool
occurs needle s i = starts_with needle (drop i s)

-- the first position from `start` on at which `needle` stands, if there is one
pub data IsFound (needle s : Bytes) (start : ℕ) : Option ℕ → Type 0 where
  absent : ((j : ℕ) → start ≤ j → occurs needle s j ≡ false) → IsFound needle s start none
  first :
      (i : ℕ)
      → start ≤ i
      → occurs needle s i ≡ true
      → ((j : ℕ) → start ≤ j → j < i → occurs needle s j ≡ false)
      → IsFound needle s start (some i)

abbrev nothing : Bytes
nothing = []

drop-nil : (n : ℕ) → drop n nothing ≡ nothing
drop-nil zero = refl
drop-nil (suc n) = refl

drop-drop : (n k : ℕ) (s : Bytes) → drop k (drop n s) ≡ drop (n + k) s
drop-drop zero k s = ground arith
drop-drop (suc n) k [] = drop-nil k ∙ sym (drop-nil (suc n + k))
drop-drop (suc n) k (c ∷ s) =
    let e : suc n + k ≡ suc (n + k) = omega arith in rw e (drop-drop n k s)

before-suc :
    (needle : Bytes) (c : ℕ) (s : Bytes) (P : ℕ → Type 0)
    → occurs needle (c ∷ s) 0 ≡ false
    → ((j : ℕ) → P (suc j) → occurs needle s j ≡ false)
    → (j : ℕ) → P j
    → occurs needle (c ∷ s) j ≡ false
before-suc needle c s P h k zero p = h
before-suc needle c s P h k (suc j) p = k j p

shift-IsFound :
    (needle : Bytes) (c : ℕ) (s : Bytes) (o : Option ℕ)
    → occurs needle (c ∷ s) 0 ≡ false
    → IsFound needle s 0 o
    → IsFound needle (c ∷ s) 0 (shift 1 o)
shift-IsFound needle c s _ h (absent never) =
    absent (before-suc needle c s (λ j. 0 ≤ j) h (λ j le. never j (omega arith)))
shift-IsFound needle c s _ h (first i le here never) =
    let e : 1 + i ≡ suc i = omega arith in
    rw e (
      first (suc i) (omega arith) here (λ j le lt.
        before-suc needle c s (λ j. j < suc i) h
          (λ k less. never k (omega arith) (omega (arith, less))) j lt))

pub find-IsFound : (needle s : Bytes) → IsFound needle s 0 (find needle s)
unfolding find
find-IsFound needle [] = elim (Bool-cases (starts_with needle [])) [
  | inl e ↦ rw e (first 0 (omega arith) e (λ j le lt. absurd (omega arith)))
  | inr e ↦ rw e (absent (λ j le. ap (starts_with needle) (drop-nil j) ∙ e))
]
find-IsFound needle (c ∷ s) = elim (Bool-cases (starts_with needle (c ∷ s))) [
  | inl e ↦ rw e (first 0 (omega arith) e (λ j le lt. absurd (omega arith)))
  | inr e ↦ rw e (shift-IsFound needle c s _ e (find-IsFound needle s))
]

occurs-drop : (needle s : Bytes) (n k : ℕ) → occurs needle (drop n s) k ≡ occurs needle s (n + k)
occurs-drop needle s n k = ap (starts_with needle) (drop-drop n k s)

from-drop :
    (needle s : Bytes) (n : ℕ) (o : Option ℕ)
    → IsFound needle (drop n s) 0 o
    → IsFound needle s n (shift n o)
from-drop needle s n _ (absent never) = absent (λ j le.
    let e : n + (j - n) ≡ j = omega arith in
    subst (λ i. occurs needle s i ≡ false) e
      (sym (occurs-drop needle s n (j - n)) ∙ never (j - n) (omega arith)))
from-drop needle s n _ (first i le here never) =
    first (n + i) (omega arith) (sym (occurs-drop needle s n i) ∙ here) (λ j le lt.
      let e : n + (j - n) ≡ j = omega arith in
      subst (λ i. occurs needle s i ≡ false) e
        (sym (occurs-drop needle s n (j - n)) ∙ never (j - n) (omega arith) (omega arith)))

drop-all : (s : Bytes) (n : ℕ) → length s ≤ n → drop n s ≡ nothing
drop-all [] n h = drop-nil n
drop-all (c ∷ s) zero h = absurd (omega (arith, h))
drop-all (c ∷ s) (suc n) h = drop-all s n (omega (arith, h))

-- a text of one byte or more is found by `find` from a position on exactly as `IsFound` says
pub find_from-IsFound :
    (c : ℕ) (needle s : Bytes) (start : ℕ)
    → IsFound (c ∷ needle) s start (find_from (c ∷ needle) s start)
unfolding find_from starts_with
find_from-IsFound c needle s start = elim (Bool-cases (ltb (length s) start)) [
  | inl e ↦
      rw e (absent (λ j le. ap (starts_with (c ∷ needle)) (drop-all s j (ground (arith, e, le)))))
  | inr e ↦ rw e (from-drop (c ∷ needle) s start _ (find-IsFound (c ∷ needle) (drop start s)))
]

-- behind its first byte, a text has no other place where it could begin
apart :
    (c : ℕ) (needle m t : Bytes) (d : ℕ)
    → All (λ x. x ≢ c) needle
    → starts_with needle t ≡ true
    → d < length needle
    → starts_with (c ∷ m) (drop d t) ≡ false
unfolding starts_with
apart c [] m t d a h lt = absurd (omega (arith, lt))
apart c (x ∷ needle) m [] d a h lt = absurd cc
apart c (x ∷ needle) m (y ∷ t) zero (ne, a) h lt = ground (arith, ne, h)
apart c (x ∷ needle) m (y ∷ t) (suc d) (ne, a) h lt =
    apart c needle m t d a (ground (arith, h)) (omega (arith, lt))

apart-here :
    (c : ℕ) (needle t : Bytes) (d : ℕ)
    → All (λ x. x ≢ c) needle
    → starts_with (c ∷ needle) t ≡ true
    → d < length needle
    → starts_with (c ∷ needle) (drop (suc d) t) ≡ false
unfolding starts_with
apart-here c needle [] d a h lt = absurd cc
apart-here c needle (y ∷ t) d a h lt = apart c needle needle t d a (ground (arith, h)) lt

-- a text whose first byte stands in it only once does not overlap itself
pub occurs-apart :
    (c : ℕ) (needle s : Bytes) (i j : ℕ)
    → All (λ x. x ≢ c) needle
    → occurs (c ∷ needle) s i ≡ true
    → i < j
    → j < i + length (c ∷ needle)
    → occurs (c ∷ needle) s j ≡ false
unfolding starts_with
occurs-apart c needle s i j a h lt lt' =
    let d : ℕ = j - i - 1 in
    let e : i + suc d ≡ j = omega (arith, lt) in
    subst (λ n. occurs (c ∷ needle) s n ≡ false) e
      (sym (occurs-drop (c ∷ needle) s i (suc d))
        ∙ apart-here c needle (drop i s) d a h (omega (arith, lt, lt')))

starts_with-le : (needle t : Bytes) → starts_with needle t ≡ true → length needle ≤ length t
unfolding starts_with
starts_with-le [] t h = omega arith
starts_with-le (x ∷ needle) [] h = absurd cc
starts_with-le (x ∷ needle) (y ∷ t) h = omega (arith, starts_with-le needle t (ground (arith, h)))

-- what stands at a position fits into the text
pub occurs-le :
    (c : ℕ) (needle s : Bytes) (i : ℕ)
    → occurs (c ∷ needle) s i ≡ true
    → i + length (c ∷ needle) ≤ length s
unfolding starts_with
occurs-le c needle s i h = elim (Bool-cases (ltb (length s) i)) [
  | inl e ↦
      let le : length s ≤ i = ground (arith, e) in
      absurd (ground (arith, ap (starts_with (c ∷ needle)) (drop-all s i le), h))
  | inr e ↦
      omega (arith, starts_with-le (c ∷ needle) (drop i s) h, length-drop i s (ground (arith, e)))
]
