-- ===== src/FileSystem/Fake/Ids.antt =====
-- The number that `gen_id_and_write_file` of the fake file system takes is that of no file.
use server_spring.Base.{
  ℕ, ◌+◌, ◌≤◌, ◌<◌, ◌≡◌, ◌≢◌, refl, ap, subst, arith, false, ◌||◌, [], ◌∷◌, ◌++◌, Bytes, equal,
  equal_iff, length, length-append, Option, none, some, ok, >>=-eq-ok, ok-injective, Bool-cases,
  inl, inr, Option-cases,
}
use server_spring.Number.{ℤ, pos, is_digit, int_max, stoi}
use server_spring.Number.Printing.{to_string-pos, decimal, IsDigits, decimal-IsDigits, stoi-decimal}
use server_spring.StdMap.{find, insert, IsSorted}
use server_spring.StdMap.Laws.{find-insert, insert-IsSorted}
use server_spring.FileSystem.Fake.{
  Paths, split_at_slash, split_last, id_in, larger, largest_file, get_unique_file_name, exists,
  create_directory, with_directory, file_path, gen_id_and_write_file,
}

split_at_slash-IsDigits : (t : Bytes) → IsDigits t → split_at_slash t ≡ none
unfolding split_at_slash is_digit
split_at_slash-IsDigits [] h = refl
split_at_slash-IsDigits (c ∷ t) (p, h) = rw (split_at_slash-IsDigits t h) (ground arith)

split_at_slash-append : (d t : Bytes) → IsDigits t → split_at_slash (d ++ (b'/' ∷ t)) ≡ some (d, t)
unfolding split_at_slash
split_at_slash-append [] t h = rw (split_at_slash-IsDigits t h)
split_at_slash-append (c ∷ d) t h = rw (split_at_slash-append d t h)

append-ne : (d t : Bytes) → d ++ (b'/' ∷ t) ≢ d
append-ne d t e = absurd (omega (arith, ap (length {0}) e, length-append {0} d (b'/' ∷ t)))

id_in-file_path : (d : Bytes) (n : ℕ) → id_in d (file_path d (pos n)) ≡ some (decimal n)
unfolding id_in split_last file_path
id_in-file_path d n = rw to_string-pos (
    ground (
      arith,
      split_at_slash-append d (decimal n) (decimal-IsDigits n),
      append-ne d (decimal n),
      equal_iff (d ++ (b'/' ∷ decimal n)) d,
      equal_iff d d,
    ))

larger-le : (o : Option Bytes) (l m : ℕ) → larger o l ≡ ok m → l ≤ m
unfolding larger
larger-le none l m h = ground arith
larger-le (some id) l m h = ground arith

larger-stoi : (id : Bytes) (l m k : ℕ) → larger (some id) l ≡ ok m → stoi id ≡ ok (pos k) → k ≤ m
unfolding larger
larger-stoi id l m k h e = ground arith

largest_file-le : (d : Bytes) (paths : Paths) (l m : ℕ) → largest_file d paths l ≡ ok m → l ≤ m
unfolding largest_file
largest_file-le d [] l m h = ground arith
largest_file-le d ((p, u) ∷ paths) l m h =
    let (n, one, rest) = >>=-eq-ok (larger (id_in d p) l) (largest_file d paths) h in
    omega (arith, larger-le (id_in d p) l n one, largest_file-le d paths n m rest)

-- Every number among the files of the directory is at most the largest.
largest_file-stoi :
    (d p id : Bytes) (paths : Paths) (l m k : ℕ)
    → largest_file d paths l ≡ ok m
    → find p paths ≡ some tt
    → id_in d p ≡ some id
    → stoi id ≡ ok (pos k)
    → k ≤ m
unfolding largest_file find
largest_file-stoi d p id [] l m k h f i e = cc
largest_file-stoi d p id ((q, u) ∷ paths) l m k h f i e =
    let (n, one, rest) = >>=-eq-ok (larger (id_in d q) l) (largest_file d paths) h in
    elim (Bool-cases (equal q p)) [
      | inl same ↦
          let here : larger (some id) l ≡ ok n = rw (← i) (rw (← (equal_iff q p).0 same) one) in
          omega (arith, larger-stoi id l n k here e, largest_file-le d paths n m rest)
      | inr other ↦ largest_file-stoi d p id paths n m k rest (rw other at f) i e
    ]

get_unique_file_name_lem :
    (d : Bytes) (paths : Paths) (n : ℕ)
    → get_unique_file_name d paths ≡ ok n
    → (m : ℕ) × (largest_file d paths 0 ≡ ok m) × (n ≡ m + 1) × (m < int_max)
unfolding get_unique_file_name
get_unique_file_name_lem d paths n h =
    let (m, e, rest) = >>=-eq-ok (largest_file d paths 0) _ h in (m, e, ground arith, ground arith)

pub exists-insert :
    (p q : Bytes) (paths : Paths)
    → IsSorted paths
    → exists p (insert q tt paths) ≡ (equal q p || exists p paths)
unfolding exists
exists-insert p q paths s = rw (find-insert p q tt paths s) (ground arith)

pub with_directory-IsSorted :
    (p : Bytes) (paths : Paths) → IsSorted paths → IsSorted (with_directory p paths)
unfolding with_directory create_directory
with_directory-IsSorted p paths s = elim (Bool-cases (exists p paths)) [
  | inl e ↦ rw e s
  | inr e ↦ rw e (insert-IsSorted p tt paths s)
]

unique-exists :
    (d : Bytes) (paths : Paths) (n : ℕ)
    → get_unique_file_name d paths ≡ ok n
    → exists (file_path d (pos n)) paths ≡ false
unfolding exists
unique-exists d paths n h =
    let (m, e, next, bound) = get_unique_file_name_lem d paths n h in
    elim (Option-cases (find (file_path d (pos n)) paths)) [
      | inl free ↦ rw free
      | inr (u, taken) ↦ absurd (
          omega (
            arith,
            largest_file-stoi d (file_path d (pos n)) (decimal n) paths 0 m n e taken
                (id_in-file_path d n) (stoi-decimal n (omega arith)),
          ))
    ]

-- The file that `gen_id_and_write_file` makes.
pub record IsCreated (d : Bytes) (paths : Paths) (id : ℤ) (after : Paths) : Type 0 where
  pub number : ℕ
  pub id_is : id ≡ pos number
  pub positive : 1 ≤ number
  pub in_range : number ≤ int_max
  pub free : exists (file_path d id) (with_directory d paths) ≡ false
  pub made :
      (p : Bytes) → exists p after ≡ (equal (file_path d id) p || exists p (with_directory d paths))
  pub sorted : IsSorted after

created :
    (d : Bytes) (paths : Paths) (n : ℕ)
    → IsSorted paths
    → get_unique_file_name d (with_directory d paths) ≡ ok n
    → IsCreated d paths (pos n) (insert (file_path d (pos n)) tt (with_directory d paths))
created d paths n s found =
    let made = with_directory d paths in
    let (m, e, next, bound) = get_unique_file_name_lem d made n found in
    let sorted : IsSorted made = with_directory-IsSorted d paths s in
    record {
      number = n;
      id_is = refl;
      positive = omega arith;
      in_range = omega arith;
      free = unique-exists d made n found;
      made = λ p. exists-insert p (file_path d (pos n)) made sorted;
      sorted = insert-IsSorted (file_path d (pos n)) tt made sorted;
    }

-- A run that returns has made a file with a new positive number that `int` can hold: no file had its
-- path before, and no other path of the set is changed, but for the directory, which is made if it
-- was not there.
pub gen_id_and_write_file-IsCreated :
    (d body : Bytes) (paths : Paths) (id : ℤ) (after : Paths)
    → IsSorted paths
    → gen_id_and_write_file d body paths ≡ ok (id, after)
    → IsCreated d paths id after
unfolding gen_id_and_write_file
gen_id_and_write_file-IsCreated d body paths id after s h =
    let (n, found, rest) = >>=-eq-ok (get_unique_file_name d (with_directory d paths)) _ h in
    subst (λ (r : ℤ × Paths). IsCreated d paths r.0 r.1) (ok-injective rest)
      (created d paths n s found)

-- the part in front of a number at the end of a path
pub split_last-append : (d t : Bytes) → IsDigits t → (split_last (d ++ (b'/' ∷ t))).0 ≡ d
unfolding split_last
split_last-append d t h = rw (split_at_slash-append d t h, split_last) refl
