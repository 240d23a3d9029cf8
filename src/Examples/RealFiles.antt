-- ===== src/Examples/RealFiles.antt =====
-- The real file system on a disk in memory.
use mathlib.Core.Option.{some-injective}
use server_spring.Base.{
  ◌≡◌, refl, subst, arith, Bool, true, false, List, [], ◌∷◌, ◌++◌, Bytes, codes, equal, equal_iff,
  drop, none, some, ok, undefined, if◌then◌else◌,
}
use server_spring.FileSystem.Fake
use server_spring.FileSystem.Real
use server_spring.FileSystem.Real.{Disk, RealFileSystem, listed, list_text, next_name}
use server_spring.FileSystem.Real.Listing.{separated, list_text-separated}
use server_spring.FileSystem.Real.Writing.{
  DiskLaws, IsWritten, write_text-IsWritten, write_file_undefined,
}
use server_spring.FileSystem.Agreement.{ids, Fake-Real}
use server_spring.Examples.Files.{seven}

-- paths and contents, what was written last in front
abbrev pub Files : Type 0
Files = List (Bytes × Bytes)

abbrev pub contents : Bytes → Files → Bytes
contents p [] = []
contents p ((path, text) ∷ files) =
    let rest = contents p files in if equal p path then text else rest

abbrev pub has : Bytes → Files → Bool
has p [] = false
has p ((path, text) ∷ files) = let rest = has p files in if equal p path then true else rest

-- the stems below "d"
abbrev pub stems : Files → List Bytes
stems [] = []
stems ((path, text) ∷ files) = drop 2 path ∷ stems files

-- one directory, "d", which is always there
abbrev pub memory : Disk Files
memory = record {
  exists = λ p files. ok true;
  create_directory = λ p files. ok (false, files);
  is_regular_file = λ p files. ok (has p files);
  remove = λ p files. ok (has p files, files);
  is_empty = λ p files. ok false;
  remove_all = λ p files. ok files;
  stems = λ p files. ok (stems files);
  open_file = λ p files. some ((p, []) ∷ files);
  append = λ p text files. (true, (p, contents p files ++ text) ∷ files);
  contents = contents;
  parent_path = λ p. codes "d";
}

contents-same : (p text : Bytes) (files : Files) → contents p ((p, text) ∷ files) ≡ text
contents-same p text files = ground (arith, equal_iff p p)

memory-DiskLaws : DiskLaws memory
memory-DiskLaws = record {
  open_file_lem = λ p d d' e. rw⁻¹ (some-injective _ _ e) (contents-same p [] d);
  append_lem = λ p text d d' e.
      subst (λ (x : Bool × Files). contents p x.1 ≡ contents p d ++ text) e
        (contents-same p (contents p d ++ text) d);
}

list_text-separated_example :
    list_text (codes "7" ∷ codes "8" ∷ [])
    ≡ codes "[" ++ (separated (codes "7" ∷ codes "8" ∷ []) ++ codes "]")
unfolding codes listed
list_text-separated_example = list_text-separated (codes "7" ∷ codes "8" ∷ []) (omega arith)

two_stems : list_text (codes "7" ∷ codes "8" ∷ []) ≡ codes "[7, 8]"
unfolding list_text listed codes
two_stems = refl

Fake-Real_example :
    (Fake.get_unique_file_name (codes "d") seven ≡ next_name (ids (codes "d") seven))
    × (Fake.get_file_list (codes "d") seven ≡ list_text (ids (codes "d") seven))
Fake-Real_example = Fake-Real (codes "d") seven

-- the disk with the file 7, the mutex free
abbrev free : RealFileSystem Files
free = record { disk = (codes "d/7", codes "old") ∷ []; locked = false; stream = none }

abbrev taken : RealFileSystem Files
taken = record free { locked = true }

write_text-IsWritten_example :
    (opened : Bool) × (after : RealFileSystem Files) × (Real.write_text memory
        (codes "d/7")
        (codes "new")
        taken
      ≡ ok (opened, after))
    × IsWritten memory (codes "d/7") (codes "new") taken opened after
write_text-IsWritten_example =
    write_text-IsWritten memory memory-DiskLaws (codes "d/7") (codes "new") taken refl

write_seven_undefined : Real.write_file memory (codes "d/7") (codes "new") free ≡ undefined
unfolding Real.with_directory
write_seven_undefined = write_file_undefined memory (codes "d/7") (codes "new") free free refl refl
