-- ===== src/FileSystem/Fake/Store.antt =====
-- What the fake file system holds after a file was written or removed.
use server_spring.Base.{
  ◌≡◌, refl, arith, true, ◌||◌, Bytes, codes, equal, equal_iff, none, some, if◌then◌else◌,
  Bool-cases, inl, inr,
}
use server_spring.Number.{ℤ}
use server_spring.StdMap.{IsSorted}
use server_spring.StdMap.Laws.{find-erase, insert-IsSorted, erase-IsSorted}
use server_spring.FileSystem.Fake.{
  file_path, Paths, exists, create_directory, with_directory, write_file, remove, read_file,
}
use server_spring.FileSystem.Fake.Ids.{IsCreated, exists-insert, with_directory-IsSorted}

exists-with_directory :
    (p q : Bytes) (paths : Paths)
    → IsSorted paths
    → exists q (with_directory p paths) ≡ (equal p q || exists q paths)
unfolding with_directory create_directory
exists-with_directory p q paths s = elim (Bool-cases (exists p paths)) [
  | inl e ↦ rw e (ground (arith, equal_iff p q, e))
  | inr e ↦ rw e (exists-insert q p paths s)
]

-- After `write_file` exactly the file, its directory, and what was there before are there to be
-- read, and `write_file` returns true.
pub write_file-read_file :
    (parent_path : Bytes → Bytes) (p q body : Bytes) (paths : Paths)
    → IsSorted paths
    → ((write_file parent_path p body paths).0 ≡ true)
      × (read_file q (write_file parent_path p body paths).1 ≡ (
          if equal p q || equal (parent_path p) q
          then some (codes "Read file successfully\n")
          else read_file q paths))
unfolding write_file read_file
write_file-read_file parent_path p q body paths s = (
  refl,
  rw
      (
        exists-insert q p (with_directory (parent_path p) paths)
            (with_directory-IsSorted (parent_path p) paths s),
        exists-with_directory (parent_path p) q paths s,
      )
      (ground arith),
)

-- After `remove` the file is not there, and everything else is there as before; the value returned
-- is whether it was there.
pub remove-read_file :
    (p q : Bytes) (paths : Paths)
    → IsSorted paths
    → ((remove p paths).0 ≡ exists p paths)
      × (read_file q (remove p paths).1 ≡ (if equal p q then none else read_file q paths))
unfolding remove read_file exists
remove-read_file p q paths s = (refl, rw (find-erase q p paths s) (ground arith))

pub read_file-exists :
    (q text : Bytes) (paths : Paths) → read_file q paths ≡ some text → exists q paths ≡ true
unfolding read_file
read_file-exists q text paths e = ground (arith, e)

pub write_file-IsSorted :
    (parent_path : Bytes → Bytes) (p body : Bytes) (paths : Paths)
    → IsSorted paths
    → IsSorted (write_file parent_path p body paths).1
unfolding write_file
write_file-IsSorted parent_path p body paths s =
    insert-IsSorted p tt (with_directory (parent_path p) paths)
      (with_directory-IsSorted (parent_path p) paths s)

pub remove-IsSorted : (p : Bytes) (paths : Paths) → IsSorted paths → IsSorted (remove p paths).1
unfolding remove
remove-IsSorted p paths s = erase-IsSorted p paths s

-- The file that `gen_id_and_write_file` made is there to be read, and its directory is there.
pub IsCreated-read_file :
    (d : Bytes) (paths : Paths) (id : ℤ) (after : Paths)
    → IsSorted paths
    → IsCreated d paths id after
    → (exists d after ≡ true)
      × (read_file (file_path d id) after ≡ some (codes "Read file successfully\n"))
unfolding read_file
IsCreated-read_file d paths id after s c = (
  ground (arith, c.made d, exists-with_directory d d paths s, equal_iff d d),
  ground (arith, c.made (file_path d id), equal_iff (file_path d id) (file_path d id)),
)
