-- ===== src/FileSystem/Real.antt =====
-- `RealFileSystem` (include/real_file_system.h, src/real_file_system.cc), as one thread runs it. The
-- calls of boost::filesystem and of stdio on the disk are a parameter; the mutex and the stream are
-- part of the state, with what C++ leaves undefined of their use.
pub mod Names
pub mod Listing
pub mod Writing
pub mod Threads
use server_spring.Base.{
  ℕ, ◌+◌, Bool, true, false, List, [], ◌∷◌, ◌++◌, Bytes, codes, c_str, ltb, Option, none, some, Run,
  ok, undefined, ◌>>=◌, at, if◌then◌else◌,
}
use server_spring.Number.{ℤ, pos, negsuc, int_max, stoi}
use server_spring.Number.Printing.{to_string}
use server_spring.FileSystem.{FileSystem, drop_separator}

-- boost::filesystem and stdio, over the states `D` of the disk. `stems` is the stems of the entries
-- of a directory in the order of `directory_iterator`; `open_file` is `fopen` for writing, which
-- makes the file or empties it, `none` for NULL; `append` is `fputs`, which tells whether
-- it wrote all of the text; `contents` is what an
-- `std::ifstream` reads. A call that throws is a `Run`.
pub record Disk (D : Type 0) : Type 0 where
  pub exists : Bytes → D → Run Bool
  pub create_directory : Bytes → D → Run (Bool × D)
  pub is_regular_file : Bytes → D → Run Bool
  pub remove : Bytes → D → Run (Bool × D)
  pub is_empty : Bytes → D → Run Bool
  pub remove_all : Bytes → D → Run D
  pub stems : Bytes → D → Run (List Bytes)
  pub open_file : Bytes → D → Option D
  pub append : Bytes → Bytes → D → Bool × D
  pub contents : Bytes → D → Bytes
  pub parent_path : Bytes → Bytes

-- The disk, whether this thread owns `file_creation_mutex_`, and the path of the stream `fp`, `none`
-- where none is open.
pub record RealFileSystem (D : Type 0) : Type 0 where
  pub disk : D
  pub locked : Bool
  pub stream : Option Bytes

-- the loop of `get_unique_file_name`
unfoldable pub largest_file : List Bytes → ℕ → Run ℕ
largest_file [] largest = ok largest
largest_file (stem ∷ stems) largest = do
  n ← stoi stem
  largest_file stems (elim n [ pos k ↦ if ltb largest k then k else largest | negsuc k ↦ largest ])

-- `largest_file + 1`, an overflow at the largest `int`
unfoldable pub next_name : List Bytes → Run ℕ
next_name stems = do
  largest ← largest_file stems 0
  if ltb largest int_max then ok (largest + 1) else undefined

-- the loop of `get_file_list`
unfoldable pub listed : List Bytes → Bytes
listed [] = []
listed (stem ∷ stems) = stem ++ (codes ", " ++ listed stems)

unfoldable pub list_text : List Bytes → Bytes
list_text stems = drop_separator (codes "[" ++ listed stems) ++ codes "]"

module _ {D : Type 0} where
  -- `lock` by the owner, and `unlock` by another than the owner, are undefined.
  pub lock : RealFileSystem D → Run (RealFileSystem D)
  lock r = if r.locked then undefined else ok (record r { locked = true })

  pub unlock : RealFileSystem D → Run (RealFileSystem D)
  unlock r = if r.locked then ok (record r { locked = false }) else undefined

  -- `flockfile` and `funlockfile`: undefined on a stream that is not open
  pub on_stream : RealFileSystem D → Run (RealFileSystem D)
  on_stream r = do path ← at r.stream; ok r

  pub fclose : RealFileSystem D → Run (RealFileSystem D)
  fclose r = do path ← at r.stream; ok (record r { stream = none })

  -- the end of `write_file` and `gen_id_and_write_file`: `funlockfile` where the file was opened,
  -- then the destructor of the `unique_lock`, which was not told of `unlock`
  pub leave : Bool → RealFileSystem D → Run (RealFileSystem D)
  leave opened r = do r' ← if opened then on_stream r else ok r; unlock r'

module _ {D : Type 0} (on : Disk D) where
  pub exists : Bytes → RealFileSystem D → Run Bool
  exists p r = on.exists p r.disk

  pub create_directory : Bytes → RealFileSystem D → Run (Bool × RealFileSystem D)
  create_directory p r = do
    (created, disk) ← on.create_directory p r.disk
    ok (created, record r { disk = disk })

  pub is_regular_file : Bytes → RealFileSystem D → Run Bool
  is_regular_file p r = on.is_regular_file p r.disk

  unfoldable pub remove : Bytes → RealFileSystem D → Run (Bool × RealFileSystem D)
  remove p r = do
    (success, disk) ← on.remove p r.disk
    empty ← on.is_empty (on.parent_path p) disk
    disk' ← if empty then on.remove_all (on.parent_path p) disk else ok disk
    ok (success, record r { disk = disk' })

  -- "create directory if necessary"
  unfoldable pub with_directory : Bytes → RealFileSystem D → Run (RealFileSystem D)
  with_directory p r = do
    there ← on.exists p r.disk
    if there
        then ok r
        else (do (created, disk) ← on.create_directory p r.disk; ok (record r { disk = disk }))

  pub fopen : Bytes → RealFileSystem D → Bool × RealFileSystem D
  fopen path r = elim (on.open_file path r.disk) [
    | none ↦ (false, r)
    | some disk ↦ (true, record r { disk = disk; stream = some path })
  ]

  pub fputs : Bytes → RealFileSystem D → Run (RealFileSystem D)
  fputs text r = do
    path ← at r.stream
    let (written, disk) = on.append path text r.disk
    ok (record r { disk = disk })

  -- from `fopen` to `fclose`, or to the `unlock` where the file cannot be opened
  pub write_text : Bytes → Bytes → RealFileSystem D → Run (Bool × RealFileSystem D)
  write_text path body r =
      let (opened, r1) = fopen (c_str path) r in
      if opened
      then (do
        r2 ← on_stream r1
        r3 ← unlock r2
        r4 ← fputs (c_str body) r3
        r5 ← fclose r4
        ok (true, r5))
      else (do r2 ← unlock r1; ok (false, r2))

  pub write_file : Bytes → Bytes → RealFileSystem D → Run (Bool × RealFileSystem D)
  write_file path body r = do
    r1 ← with_directory (on.parent_path path) r
    r2 ← lock r1
    (opened, r3) ← write_text path body r2
    r4 ← leave opened r3
    ok (opened, r4)

  unfoldable pub get_unique_file_name : Bytes → D → Run ℕ
  get_unique_file_name p disk = do stems ← on.stems p disk; next_name stems

  pub gen_id_and_write_file : Bytes → Bytes → RealFileSystem D → Run (ℤ × RealFileSystem D)
  gen_id_and_write_file directory body r = do
    r1 ← with_directory directory r
    r2 ← lock r1
    file_name ← get_unique_file_name directory r2.disk
    (opened, r3) ← write_text (directory ++ (b'/' ∷ to_string (pos file_name))) body r2
    r4 ← leave opened r3
    ok (if opened then pos file_name else negsuc 0, r4)

  pub read_file : Bytes → RealFileSystem D → Run (Option Bytes)
  read_file p r = do
    regular ← on.is_regular_file p r.disk
    ok (if regular then some (on.contents p r.disk) else none)

  pub get_file_list : Bytes → RealFileSystem D → Run Bytes
  get_file_list p r = do stems ← on.stems p r.disk; ok (list_text stems)

  abbrev pub real_file_system : FileSystem (RealFileSystem D)
  real_file_system = record {
    exists = exists;
    create_directory = create_directory;
    is_regular_file = is_regular_file;
    remove = remove;
    write_file = write_file;
    gen_id_and_write_file = gen_id_and_write_file;
    read_file = read_file;
    get_file_list = get_file_list;
  }
