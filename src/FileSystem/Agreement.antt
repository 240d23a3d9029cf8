-- ===== src/FileSystem/Agreement.antt =====
-- The two file systems on one directory: `Fake` goes through a set of paths, `Real` through the
-- entries of the directory.
use server_spring.Base.{
  ℕ, ◌≡◌, refl, ap, List, [], ◌∷◌, ◌++◌, Bytes, codes, ltb, none, some, Option-cases, inl, inr, Run,
  ok, throws, undefined, spent, ◌>>=◌, if◌then◌else◌,
}
use server_spring.Number.{ℤ, pos, negsuc, stoi}
use server_spring.FileSystem.Fake
use server_spring.FileSystem.Fake.{Paths, id_in}
use server_spring.FileSystem.Real

-- the names directly below `d`, in the order of the set
pub ids : Bytes → Paths → List Bytes
ids d [] = []
ids d ((path, u) ∷ paths) = elim (id_in d path) [ none ↦ ids d paths | some id ↦ id ∷ ids d paths ]

larger_lem :
    (m : Run ℤ) (l : ℕ) (f g : ℕ → Run ℕ)
    → ((k : ℕ) → f k ≡ g k)
    → ((m >>= λ n. elim n as (λ x. Run ℕ) [
      | pos k ↦ ok (if ltb l k then k else l)
      | negsuc k ↦ ok l
    ])
        >>= f)
      ≡ (m >>= λ n. g (elim n as (λ x. ℕ) [ pos k ↦ if ltb l k then k else l | negsuc k ↦ l ]))
larger_lem (ok (pos k)) l f g h = h (if ltb l k then k else l)
larger_lem (ok (negsuc k)) l f g h = h l
larger_lem (throws e) l f g h = refl
larger_lem undefined l f g h = refl
larger_lem spent l f g h = refl

largest_file-ids :
    (d : Bytes) (paths : Paths) (l : ℕ)
    → Fake.largest_file d paths l ≡ Real.largest_file (ids d paths) l
unfolding ids Fake.largest_file Fake.larger Real.largest_file
largest_file-ids d [] l = refl
largest_file-ids d ((path, u) ∷ paths) l = elim (Option-cases (id_in d path)) [
  | inl e ↦ rw (e, ids) (largest_file-ids d paths l)
  | inr (id, e) ↦
      rw (e, ids)
        (larger_lem (stoi id) l (Fake.largest_file d paths) (Real.largest_file (ids d paths))
          (largest_file-ids d paths))
]

list_from-ids : (d : Bytes) (paths : Paths) → Fake.list_from d paths ≡ Real.listed (ids d paths)
unfolding ids Fake.list_from Real.listed
list_from-ids d [] = refl
list_from-ids d ((path, u) ∷ paths) = elim (Option-cases (id_in d path)) [
  | inl e ↦ rw (e, ids, Fake.list_from) (list_from-ids d paths)
  | inr (id, e) ↦
      rw (e, ids, Fake.list_from) (ap (λ t. id ++ (codes ", " ++ t)) (list_from-ids d paths))
]

-- On a directory whose stems are the names below `d` the two file systems choose the same number
-- for a new file, or fail alike, and make the same list.
pub Fake-Real :
    (d : Bytes) (paths : Paths)
    → (Fake.get_unique_file_name d paths ≡ Real.next_name (ids d paths))
      × (Fake.get_file_list d paths ≡ Real.list_text (ids d paths))
unfolding Fake.get_unique_file_name Real.next_name Fake.get_file_list Real.list_text
Fake-Real d paths = (rw (largest_file-ids d paths 0) refl, rw (list_from-ids d paths) refl)
