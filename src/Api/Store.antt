-- ===== src/Api/Store.antt =====
-- What the API handler relies on of a `FileSystem` that keeps its files.
use server_spring.Base.{
  ℕ, ◌⊎◌, inr, ◌≡◌, arith, true, Bytes, codes, equal_iff, none, some, ok, ok-injective, ◌∙◌, Bool,
  ap, subst, refl, Run, Option,
}
use server_spring.Number.{ℤ, pos, negsuc}
use server_spring.Number.Printing.{decimal, to_string}
use server_spring.StdMap.{IsSorted}
use server_spring.FileSystem.{FileSystem}
use server_spring.FileSystem.Fake.{
  file_path, gen_id_and_write_file, Paths, exists, write_file, remove, read_file, fake_file_system,
}
use server_spring.FileSystem.Fake.Ids.{gen_id_and_write_file-IsCreated}
use server_spring.FileSystem.Fake.Store.{
  IsCreated-read_file, read_file-exists, write_file-IsSorted, remove-IsSorted, write_file-read_file,
  remove-read_file,
}
use server_spring.Api.Uri.{is_number}
use server_spring.Api.Methods.{below}

-- In a valid state, a file with a number for its name that was written is read as `kept` of what was
-- written, and its directory is there; the same of a file that got its number, where there was one;
-- a file that was removed cannot be read; and the question whether a path is there is answered.
pub record StoreLaws {S : Type 0} (fs : FileSystem S) : Type 1 where
  pub IsValid : S → Type 0
  pub kept : Bytes → Bytes
  pub exists_lem : (p : Bytes) (s : S) → IsValid s → (there : Bool) × (fs.exists p s ≡ ok there)
  pub write_file_lem :
      (directory name body : Bytes) (s s' : S)
      → is_number name ≡ true
      → IsValid s
      → fs.write_file (below directory name) body s ≡ ok (true, s')
      → IsValid s'
        × (fs.exists directory s' ≡ ok true)
        × (fs.read_file (below directory name) s' ≡ ok (some (kept body)))
  pub gen_id_and_write_file_lem :
      (directory body : Bytes) (s s' : S) (id : ℤ)
      → IsValid s
      → fs.gen_id_and_write_file directory body s ≡ ok (id, s')
      → (id ≡ negsuc 0)
        ⊎ ((n : ℕ) × (id ≡ pos n)
            × IsValid s'
            × (fs.exists directory s' ≡ ok true)
            × (fs.read_file (below directory (decimal n)) s' ≡ ok (some (kept body))))
  pub remove_lem :
      (p : Bytes) (s s' : S)
      → IsValid s
      → fs.remove p s ≡ ok (true, s')
      → IsValid s' × (fs.read_file p s' ≡ ok none)

-- the contents of every file of the fake file system
abbrev pub stored : Bytes
stored = codes "Read file successfully\n"

-- what `StoreLaws` says of a file that was written
abbrev pub IsKept : Bytes → Bytes → Paths → Type 0
IsKept directory name after =
    IsSorted after
    × (exists directory after ≡ true)
    × (read_file (below directory name) after ≡ some stored)

-- the same of the fake file system as an interface
pub IsKept-ok :
    (directory name : Bytes) (after : Paths)
    → IsKept directory name after
    → IsSorted after
      × (◌≡◌ {A = Run Bool} (ok (exists directory after)) (ok true))
      × (◌≡◌ {A = Run (Option Bytes)}
          (ok (read_file (below directory name) after))
          (ok (some stored)))
IsKept-ok directory name after (sorted, there, read) = (sorted, ap ok there, ap ok read)

pub write_file-IsKept :
    (parent_path : Bytes → Bytes) (directory name body : Bytes) (s : Paths)
    → parent_path (below directory name) ≡ directory
    → IsSorted s
    → IsKept directory name (write_file parent_path (below directory name) body s).1
write_file-IsKept parent_path directory name body s parent v =
    let p = below directory name in
    let after = (write_file parent_path p body s).1 in
    let there : read_file directory after ≡ some stored =
      (write_file-read_file parent_path p directory body s v).1
      ∙ ground (arith, equal_iff (parent_path p) directory, parent) in
    (
      write_file-IsSorted parent_path p body s v,
      read_file-exists directory stored after there,
      (write_file-read_file parent_path p p body s v).1 ∙ ground (arith, equal_iff p p),
    )

pub gen_id_and_write_file-IsKept :
    (directory body : Bytes) (s s' : Paths) (id : ℤ)
    → IsSorted s
    → gen_id_and_write_file directory body s ≡ ok (id, s')
    → (n : ℕ) × (id ≡ pos n) × IsKept directory (decimal n) s'
unfolding below file_path to_string
gen_id_and_write_file-IsKept directory body s s' id v e =
    let c = gen_id_and_write_file-IsCreated directory body s id s' v e in
    let (there, read) = IsCreated-read_file directory s id s' v c in
    (
      c.number,
      c.id_is,
      (
        c.sorted,
        there,
        subst (λ i. read_file (file_path directory i) s' ≡ some stored) c.id_is read,
      ),
    )

pub remove-IsGone :
    (p : Bytes) (s : Paths)
    → IsSorted s
    → IsSorted (remove p s).1 × (read_file p (remove p s).1 ≡ none)
remove-IsGone p s v =
    (remove-IsSorted p s v, (remove-read_file p p s v).1 ∙ ground (arith, equal_iff p p))

-- The fake file system does, where the directory of a file is the path in front of its number.
abbrev pub fake_store :
    (parent_path : Bytes → Bytes)
    → ((directory name : Bytes)
        → is_number name ≡ true
        → parent_path (below directory name) ≡ directory)
    → StoreLaws (fake_file_system parent_path)
fake_store parent_path parent = record {
  IsValid = IsSorted;
  kept = λ body. stored;
  exists_lem = λ p s v. (exists p s, refl);
  write_file_lem = λ directory name body s s' n v e. IsKept-ok directory name s' (
      subst (IsKept directory name) (ap (λ (x : Bool × Paths). x.1) (ok-injective e))
        (write_file-IsKept parent_path directory name body s (parent directory name n) v));
  gen_id_and_write_file_lem = λ directory body s s' id v e.
      let (n, number, (sorted, there, read)) =
        gen_id_and_write_file-IsKept directory body s s' id v e in
      inr (n, number, sorted, ap ok there, ap ok read);
  remove_lem = λ p s s' v e.
      subst
        (λ after.
          IsSorted after × (◌≡◌ {A = Run (Option Bytes)} (ok (read_file p after)) (ok none)))
        (ap (λ (x : Bool × Paths). x.1) (ok-injective e))
        (let (sorted, gone) = remove-IsGone p s v in (sorted, ap ok gone));
}
