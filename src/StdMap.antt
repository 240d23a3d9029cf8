-- ===== src/StdMap.antt =====
-- `std::map<std::string, V>`: pairs in the order of their keys, which `std::string` compares byte by
-- byte. `alter` is the entry of a key put in or changed: `m[k]` followed by a change of the value,
-- and `m.insert({k, v})`, which keeps an entry that is there.
pub mod Laws
use server_spring.Base.{
  ℕ, Bool, true, false, ◌&&◌, ◌||◌, List, [], ◌∷◌, Option, none, some, Bytes, All, ◌≡◌, equal, ltb,
  ◌==◌, if◌then◌else◌,
}

unfoldable pub less : Bytes → Bytes → Bool
less _ [] = false
less [] (y ∷ ys) = true
less (x ∷ xs) (y ∷ ys) = ltb x y || (x == y && less xs ys)

abbrev pub StdMap {ℓ} : Type ℓ → Type ℓ
StdMap V = List (Bytes × V)

module _ {ℓ} {V : Type ℓ} where
  unfoldable pub find : Bytes → StdMap V → Option V
  find k [] = none
  find k ((j, w) ∷ m) = if equal j k then some w else find k m

  unfoldable pub alter : Bytes → (Option V → V) → StdMap V → StdMap V
  alter k f [] = (k, f none) ∷ []
  alter k f ((j, w) ∷ m) =
      if equal j k
      then (j, f (some w)) ∷ m
      else if less k j
      then (k, f none) ∷ (j, w) ∷ m
      else (j, w) ∷ alter k f m

  abbrev pub or_else : V → Option V → V
  or_else v none = v
  or_else v (some w) = w

  unfoldable pub insert : Bytes → V → StdMap V → StdMap V
  insert k v = alter k (or_else v)

  unfoldable pub erase : Bytes → StdMap V → StdMap V
  erase k [] = []
  erase k ((j, w) ∷ m) = if equal j k then m else (j, w) ∷ erase k m

  -- every key lies above `k`
  abbrev pub IsAbove : Bytes → StdMap V → Type 0
  IsAbove k = All (λ e. less k e.0 ≡ true)

  abbrev pub IsSorted : StdMap V → Type 0
  IsSorted [] = Unit
  IsSorted ((k, v) ∷ m) = IsAbove k m × IsSorted m
