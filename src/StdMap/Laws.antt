-- ===== src/StdMap/Laws.antt =====
-- Lookup in a map that was changed, and the order of the keys.
use server_spring.Base.{
  true, false, [], ◌∷◌, Option, none, some, Bytes, All, ◌≡◌, inl, inr, refl, arith, equal,
  equal_iff, if◌then◌else◌, Bool-cases,
}
use server_spring.StdMap.{less, StdMap, find, alter, or_else, insert, erase, IsAbove, IsSorted}

pub less_irrefl : (a : Bytes) → less a a ≡ false
unfolding less
less_irrefl [] = refl
less_irrefl (x ∷ a) = ground (arith, less_irrefl a)

pub less_trans : (a b c : Bytes) → less a b ≡ true → less b c ≡ true → less a c ≡ true
unfolding less
less_trans a b [] h k = k
less_trans a [] (z ∷ c) h k = cc
less_trans [] (y ∷ b) (z ∷ c) h k = refl
less_trans (x ∷ a) (y ∷ b) (z ∷ c) h k = ground (arith, less_trans a b c)

pub less_total : (a b : Bytes) → equal a b ≡ false → less a b ≡ false → less b a ≡ true
unfolding less equal
less_total [] [] h k = cc
less_total [] (y ∷ b) h k = cc
less_total (x ∷ a) [] h k = refl
less_total (x ∷ a) (y ∷ b) h k = ground (arith, less_total a b)

less-ne : (a b : Bytes) → less a b ≡ true → equal b a ≡ false
less-ne a b h = ground (arith, equal_iff b a, less_irrefl a)

module _ {ℓ} {V : Type ℓ} where
  IsAbove-trans : (j k : Bytes) (m : StdMap V) → less j k ≡ true → IsAbove k m → IsAbove j m
  IsAbove-trans j k [] h a = tt
  IsAbove-trans j k ((i, v) ∷ m) h (p, a) = (less_trans j k i h p, IsAbove-trans j k m h a)

  find_of_IsAbove : (k : Bytes) (m : StdMap V) → IsAbove k m → find k m ≡ none
  unfolding find
  find_of_IsAbove k [] h = refl
  find_of_IsAbove k ((j, v) ∷ m) (p, h) = rw (less-ne k j p) (find_of_IsAbove k m h)

  -- A map changed at `k` gives the new value there, and elsewhere what it gave.
  pub find-alter :
      (j k : Bytes) (f : Option V → V) (m : StdMap V)
      → IsSorted m
      → find j (alter k f m) ≡ (if equal k j then some (f (find k m)) else find j m)
  unfolding find alter
  find-alter j k f [] s = refl
  find-alter j k f ((i, v) ∷ m) (a, s) = ground (
    arith,
    equal_iff i k,
    equal_iff k j,
    equal_iff i j,
    find-alter j k f m s,
    λ (l : less k i ≡ true). find_of_IsAbove k m (IsAbove-trans k i m l a),
  )

  IsAbove-alter :
      (j k : Bytes) (f : Option V → V) (m : StdMap V)
      → less j k ≡ true
      → IsAbove j m
      → IsAbove j (alter k f m)
  unfolding alter
  IsAbove-alter j k f [] h a = (h, tt)
  IsAbove-alter j k f ((i, v) ∷ m) h (p, a) = ground (arith, IsAbove-alter j k f m h a)

  pub alter-IsSorted :
      (k : Bytes) (f : Option V → V) (m : StdMap V) → IsSorted m → IsSorted (alter k f m)
  unfolding alter
  alter-IsSorted k f [] s = (tt, tt)
  alter-IsSorted k f ((j, v) ∷ m) (a, s) = elim (Bool-cases (equal j k)) [
    | inl e ↦ rw e (a, s)
    | inr e ↦ elim (Bool-cases (less k j)) [
      | inl l ↦ rw (e, l) ((l, IsAbove-trans k j m l a), (a, s))
      | inr l ↦
          rw (e, l)
            (
              IsAbove-alter j k f m
                  (less_total k j (ground (arith, equal_iff k j, equal_iff j k)) l) a,
              alter-IsSorted k f m s,
            )
    ]
  ]

  -- what holds of every value, and of the values that `f` makes of such
  pub All-alter {κ} :
      (P : V → Type κ) (k : Bytes) (f : Option V → V) (m : StdMap V)
      → P (f none)
      → ((v : V) → P v → P (f (some v)))
      → All (λ e. P e.1) m
      → All (λ e. P e.1) (alter k f m)
  unfolding alter
  All-alter P k f [] n s a = (n, tt)
  All-alter P k f ((j, v) ∷ m) n s (p, a) = elim (Bool-cases (equal j k)) [
    | inl e ↦ rw e (s v p, a)
    | inr e ↦ elim (Bool-cases (less k j)) [
      | inl l ↦ rw (e, l) (n, (p, a))
      | inr l ↦ rw (e, l) (p, All-alter P k f m n s a)
    ]
  ]

  pub find-All {κ} :
      (P : V → Type κ) (k : Bytes) (d : V) (m : StdMap V)
      → P d
      → All (λ e. P e.1) m
      → P (or_else d (find k m))
  unfolding find
  find-All P k d [] p a = p
  find-All P k d ((j, v) ∷ m) p (q, a) = elim (Bool-cases (equal j k)) [
    | inl e ↦ rw e q
    | inr e ↦ rw e (find-All P k d m p a)
  ]

  pub find-insert :
      (j k : Bytes) (v : V) (m : StdMap V)
      → IsSorted m
      → find j (insert k v m) ≡ (if equal k j then some (or_else v (find k m)) else find j m)
  unfolding insert
  find-insert j k v m s = find-alter j k (or_else v) m s

  pub insert-IsSorted : (k : Bytes) (v : V) (m : StdMap V) → IsSorted m → IsSorted (insert k v m)
  unfolding insert
  insert-IsSorted k v m s = alter-IsSorted k (or_else v) m s

  pub find-erase :
      (j k : Bytes) (m : StdMap V)
      → IsSorted m
      → find j (erase k m) ≡ (if equal k j then none else find j m)
  unfolding find erase
  find-erase j k [] s = ground arith
  find-erase j k ((i, v) ∷ m) (a, s) = ground (
    arith,
    equal_iff i k,
    equal_iff k j,
    equal_iff i j,
    find-erase j k m s,
    find_of_IsAbove i m a,
  )

  All-erase {κ} : (P : Bytes × V → Type κ) (k : Bytes) (m : StdMap V) → All P m → All P (erase k m)
  unfolding erase
  All-erase P k [] a = tt
  All-erase P k ((j, v) ∷ m) (p, a) = elim (Bool-cases (equal j k)) [
    | inl e ↦ rw e a
    | inr e ↦ rw e (p, All-erase P k m a)
  ]

  pub erase-IsSorted : (k : Bytes) (m : StdMap V) → IsSorted m → IsSorted (erase k m)
  unfolding erase
  erase-IsSorted k [] s = tt
  erase-IsSorted k ((j, v) ∷ m) (a, s) = elim (Bool-cases (equal j k)) [
    | inl e ↦ rw e s
    | inr e ↦ rw e (All-erase (λ e. less j e.0 ≡ true) k m a, erase-IsSorted k m s)
  ]

  pub All-insert {κ} :
      (P : Bytes × V → Type κ) (k : Bytes) (v : V) (m : StdMap V)
      → P (k, v)
      → All P m
      → All P (insert k v m)
  unfolding insert alter
  All-insert P k v [] n a = (n, tt)
  All-insert P k v ((j, w) ∷ m) n (p, a) = elim (Bool-cases (equal j k)) [
    | inl e ↦ rw e (p, a)
    | inr e ↦ elim (Bool-cases (less k j)) [
      | inl l ↦ rw (e, l) (n, (p, a))
      | inr l ↦ rw (e, l) (p, All-insert P k v m n a)
    ]
  ]
