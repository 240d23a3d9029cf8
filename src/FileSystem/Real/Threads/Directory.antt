-- ===== src/FileSystem/Real/Threads/Directory.antt =====
-- What the calls that make files know of the entries of the directory.
use mathlib.Core.List.{Memᴰ}
use server_spring.Base.{
  ℕ, ◌≡◌, ◌≢◌, refl, sym, ◌∙◌, subst, Bool, List, [], ◌∷◌, Bytes, c_str, some, ok, ok-injective,
  >>=-eq-ok, All,
}
use server_spring.Number.Printing.{decimal}
use server_spring.FileSystem.Real.{Disk, get_unique_file_name}
use server_spring.FileSystem.Real.Names.{next_name-ne}
use server_spring.FileSystem.Real.Threads.{file_path}

Memᴰ-ne : (ss : List Bytes) {s t : Bytes} → Memᴰ s ss → All (λ x. x ≢ t) ss → s ≢ t
Memᴰ-ne [] h a q = elim h [ ]
Memᴰ-ne (x ∷ ss) (Memᴰ.head e) (ne, rest) q = ne (sym e ∙ q)
Memᴰ-ne (x ∷ ss) (Memᴰ.tail h) (ne, rest) q = Memᴰ-ne ss h rest q

module _ {D : Type 0} (on : Disk D) (directory : Bytes) where
  -- the entries of the directory can be read, and `stem` is one
  abbrev pub Has : D → Bytes → Type 0
  Has d stem = (ss : List Bytes) × (on.stems directory d ≡ ok ss) × Memᴰ stem ss

  -- no entry is lost
  abbrev pub Grows : D → D → Type 0
  Grows d d' =
      (ss : List Bytes)
      → on.stems directory d ≡ ok ss
      → (ss' : List Bytes) × (on.stems directory d' ≡ ok ss')
        × ((stem : Bytes) → Memᴰ stem ss → Memᴰ stem ss')

  -- What POSIX says of a directory that the calls made read: making a directory, opening a file and
  -- writing it lose no entry, and a file that was opened for writing is an entry of its directory.
  pub record DirectoryLaws : Type 0 where
    pub create_directory_lem :
        (p : Bytes) (b : Bool) (d d' : D) → on.create_directory p d ≡ ok (b, d') → Grows d d'
    pub open_file_lem : (p : Bytes) (d d' : D) → on.open_file p d ≡ some d' → Grows d d'
    pub append_lem : (p text : Bytes) (d : D) → Grows d (on.append p text d).1
    pub open_new_lem :
        (n : ℕ) (ss : List Bytes) (d d' : D)
        → on.stems directory d ≡ ok ss
        → on.open_file (c_str (file_path directory n)) d ≡ some d'
        → Has d' (decimal n)

  pub Has-Grows : {d d' : D} {t : Bytes} → Grows d d' → Has d t → Has d' t
  Has-Grows g (ss, e, h) = let (ss', e', keeps) = g ss e in (ss', e', keeps _ h)

  -- a new number is that of no entry
  pub unique-not-Has :
      (d : D) (n : ℕ) → get_unique_file_name on directory d ≡ ok n → ¬ Has d (decimal n)
  unfolding get_unique_file_name
  unique-not-Has d n g (ss, e, h) =
      let (ss', e', next) = >>=-eq-ok (on.stems directory d) _ g in
      let same = ok-injective (sym e ∙ e') in
      Memᴰ-ne ss' (subst (Memᴰ (decimal n)) same h) (next_name-ne ss' n next) refl
