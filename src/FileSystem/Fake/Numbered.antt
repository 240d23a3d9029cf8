-- ===== src/FileSystem/Fake/Numbered.antt =====
-- When `gen_id_and_write_file` of the fake file system returns.
use server_spring.Base.{
  ℕ, ◌+◌, ◌<◌, ◌≡◌, ◌⊎◌, inl, inr, refl, arith, [], ◌∷◌, Bytes, equal_iff, ltb, Option, none, some,
  ok, All, if◌then◌else◌, Bool-cases,
}
use server_spring.Number.{ℤ, pos, int_max}
use server_spring.Number.Printing.{decimal, stoi-decimal}
use server_spring.StdMap.{insert}
use server_spring.StdMap.Laws.{All-insert}
use server_spring.FileSystem.Fake.{
  Paths, id_in, larger, largest_file, get_unique_file_name, exists, create_directory,
  with_directory, file_path, gen_id_and_write_file,
}

-- A path that is not directly below `d`, or is there under a number below the largest `int`.
abbrev pub IsNumbered : Bytes → Bytes × Unit {0} → Type 0
IsNumbered d e = (id_in d e.0 ≡ none) ⊎ ((k : ℕ) × (id_in d e.0 ≡ some (decimal k)) × (k < int_max))

larger_returns :
    (o : Option Bytes) (l : ℕ)
    → (o ≡ none) ⊎ ((k : ℕ) × (o ≡ some (decimal k)) × (k < int_max))
    → l < int_max
    → (m : ℕ) × (larger o l ≡ ok m) × (m < int_max)
unfolding larger
larger_returns o l (inl e) h = (l, rw e, h)
larger_returns o l (inr (k, e, b)) h =
    (if ltb l k then k else l, rw (e, stoi-decimal k (omega arith)) refl, ground arith)

largest_file_returns :
    (d : Bytes) (paths : Paths) (l : ℕ)
    → All (IsNumbered d) paths
    → l < int_max
    → (m : ℕ) × (largest_file d paths l ≡ ok m) × (m < int_max)
unfolding largest_file
largest_file_returns d [] l a h = (l, refl, h)
largest_file_returns d ((p, u) ∷ paths) l (n, a) h =
    let (m, one, b) = larger_returns (id_in d p) l n h in
    let (k, rest, c) = largest_file_returns d paths m a b in (k, rw one rest, c)

with_directory-IsNumbered :
    (d : Bytes) (paths : Paths)
    → All (IsNumbered d) paths
    → All (IsNumbered d) (with_directory d paths)
unfolding with_directory create_directory id_in
with_directory-IsNumbered d paths a = elim (Bool-cases (exists d paths)) [
  | inl e ↦ rw e a
  | inr e ↦ rw e (All-insert (IsNumbered d) d tt paths (inl (ground (arith, equal_iff d d))) a)
]

-- Where the files of the directory bear numbers below the largest `int`, a file is made.
pub gen_id_and_write_file_returns :
    (d body : Bytes) (paths : Paths)
    → All (IsNumbered d) paths
    → (id : ℤ) × (after : Paths) × (gen_id_and_write_file d body paths ≡ ok (id, after))
unfolding gen_id_and_write_file get_unique_file_name
gen_id_and_write_file_returns d body paths a =
    let (m, e, b) =
      largest_file_returns d (with_directory d paths) 0 (with_directory-IsNumbered d paths a)
        (omega arith) in
    (
      pos (m + 1),
      insert (file_path d (pos (m + 1))) tt (with_directory d paths),
      rw e (ground arith),
    )
