-- ===== src/Examples/Files.antt =====
-- Sets of paths of the fake file system.
use server_spring.Base.{[], ◌∷◌, codes, equal, ◌≡◌, inl, inr, refl, arith, ok, All}
use server_spring.Number.{ℤ, pos, stoi, is_digit}
use server_spring.Number.Printing.{to_string, decimal, decimal_from}
use server_spring.StdMap.{find, insert, alter, less, IsSorted}
use server_spring.FileSystem.Fake.{Paths, gen_id_and_write_file}
use server_spring.FileSystem.Fake.Ids.{IsCreated, gen_id_and_write_file-IsCreated}
use server_spring.FileSystem.Fake.Numbered.{IsNumbered, gen_id_and_write_file_returns}

-- the directory "d" with the file 7
abbrev pub seven : Paths
seven = (codes "d", tt) ∷ (codes "d/7", tt) ∷ []

pub seven-IsSorted : IsSorted seven
unfolding less codes
seven-IsSorted = ((refl, tt), (tt, tt))

-- and with the file 8 besides
abbrev eight : Paths
eight = (codes "d", tt) ∷ (codes "d/7", tt) ∷ (codes "d/8", tt) ∷ []

gen_id_8 : gen_id_and_write_file (codes "d") (codes "text") seven ≡ ok (pos 8, eight)
unfolding gen_id_and_write_file codes equal find insert alter less stoi is_digit to_string decimal
gen_id_8 = refl

gen_id_and_write_file-IsCreated_example : IsCreated (codes "d") seven (pos 8) eight
gen_id_and_write_file-IsCreated_example =
    gen_id_and_write_file-IsCreated (codes "d") (codes "text") seven (pos 8) eight seven-IsSorted
      gen_id_8

seven-IsNumbered : All (IsNumbered (codes "d")) seven
unfolding gen_id_and_write_file codes equal decimal decimal_from
seven-IsNumbered = (inl refl, (inr (7, refl, omega arith), tt))

makes_a_file :
    (id : ℤ) × (after : Paths) × (gen_id_and_write_file (codes "d") (codes "text") seven
      ≡ ok (id, after))
makes_a_file = gen_id_and_write_file_returns (codes "d") (codes "text") seven seven-IsNumbered
