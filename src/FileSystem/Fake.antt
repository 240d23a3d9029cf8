-- ===== src/FileSystem/Fake.antt =====
-- `FakeFileSystem` (include/fake_file_system.h, src/fake_file_system.cc): the set of the paths that
-- exist, without contents. A boost path is the string that it was made of; `parent_path` is boost's.
pub mod Ids
pub mod Numbered
pub mod Store
use server_spring.Base.{
  ℕ, ◌+◌, ◌-◌, ◌^◌, ◌%◌, Bool, true, false, not, List, [], ◌∷◌, ◌++◌, Bytes, codes, equal, leb, ltb,
  ◌==◌, take, length, Option, none, some, Run, ok, undefined, ◌>>=◌, if◌then◌else◌,
}
use server_spring.Number.{ℤ, pos, negsuc, int_max, stoi}
use server_spring.Number.Printing.{to_string}
use server_spring.StdMap.{StdMap, find, insert, erase}
use server_spring.FileSystem.{FileSystem, drop_separator}

-- `std::set<std::string>`
abbrev pub Paths : Type 0
Paths = StdMap (Unit {0})

abbrev pub is_some {ℓ} : {A : Type ℓ} → Option A → Bool
is_some none = false
is_some (some a) = true

-- the parts before and behind the last slash, where there is one
unfoldable pub split_at_slash : Bytes → Option (Bytes × Bytes)
split_at_slash [] = none
split_at_slash (c ∷ s) = elim (split_at_slash s) [
  | some (prefix, id) ↦ some (c ∷ prefix, id)
  | none ↦ if c == b'/' then some ([], s) else none
]

-- `i = find_last_of("/")`, then `substr(0, i)` and `substr(i + 1)`: without a slash `i` is -1, and
-- both are the whole path
unfoldable pub split_last : Bytes → Bytes × Bytes
split_last path = elim (split_at_slash path) [ none ↦ (path, path) | some parts ↦ parts ]

-- a path of the set that the loops look at: not the directory itself, and directly below it
pub id_in : Bytes → Bytes → Option Bytes
id_in directory path =
    let (prefix, id) = split_last path in
    if equal path directory then none else if equal prefix directory then some id else none

-- one round of the loop of `get_unique_file_name`
unfoldable pub larger : Option Bytes → ℕ → Run ℕ
larger none largest = ok largest
larger (some id) largest = do
  n ← stoi id
  elim n [ pos k ↦ ok (if ltb largest k then k else largest) | negsuc k ↦ ok largest ]

unfoldable pub largest_file : Bytes → Paths → ℕ → Run ℕ
largest_file directory [] largest = ok largest
largest_file directory ((path, _) ∷ paths) largest = do
  next ← larger (id_in directory path) largest
  largest_file directory paths next

-- `largest_file + 1`, an overflow at the largest `int`
unfoldable pub get_unique_file_name : Bytes → Paths → Run ℕ
get_unique_file_name directory paths = do
  largest ← largest_file directory paths 0
  if ltb largest int_max then ok (largest + 1) else undefined

unfoldable pub exists : Bytes → Paths → Bool
exists p paths = is_some (find p paths)

unfoldable pub create_directory : Bytes → Paths → Bool × Paths
create_directory p paths = (not (exists p paths), insert p tt paths)

unfoldable pub is_regular_file : Bytes → Paths → Bool
is_regular_file p paths = true

unfoldable pub remove : Bytes → Paths → Bool × Paths
remove p paths = (exists p paths, erase p paths)

-- a directory made if it is not there
unfoldable pub with_directory : Bytes → Paths → Paths
with_directory p paths = if exists p paths then paths else (create_directory p paths).1

unfoldable pub write_file : (Bytes → Bytes) → Bytes → Bytes → Paths → Bool × Paths
write_file parent_path p body paths = (true, insert p tt (with_directory (parent_path p) paths))

unfoldable pub file_path : Bytes → ℤ → Bytes
file_path directory id = directory ++ (b'/' ∷ to_string id)

unfoldable pub gen_id_and_write_file : Bytes → Bytes → Paths → Run (ℤ × Paths)
unfolding get_unique_file_name largest_file larger id_in split_last split_at_slash exists
    create_directory with_directory file_path
gen_id_and_write_file directory body paths = do
  let made = with_directory directory paths
  id ← get_unique_file_name directory made
  ok (pos id, insert (file_path directory (pos id)) tt made)

unfoldable pub read_file : Bytes → Paths → Option Bytes
read_file p paths = if exists p paths then some (codes "Read file successfully\n") else none

unfoldable pub list_from : Bytes → Paths → Bytes
list_from directory [] = []
list_from directory ((path, _) ∷ paths) = elim (id_in directory path) [
  | none ↦ list_from directory paths
  | some id ↦ id ++ (codes ", " ++ list_from directory paths)
]

unfoldable pub get_file_list : Bytes → Paths → Bytes
get_file_list directory paths = drop_separator (codes "[" ++ list_from directory paths) ++ codes "]"

abbrev pub fake_file_system : (Bytes → Bytes) → FileSystem Paths
fake_file_system parent_path = record {
  exists = λ p s. ok (exists p s);
  create_directory = λ p s. ok (create_directory p s);
  is_regular_file = λ p s. ok (is_regular_file p s);
  remove = λ p s. ok (remove p s);
  write_file = λ p body s. ok (write_file parent_path p body s);
  gen_id_and_write_file = gen_id_and_write_file;
  read_file = λ p s. ok (read_file p s);
  get_file_list = λ p s. ok (get_file_list p s);
}
