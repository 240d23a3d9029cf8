-- ===== src/FileSystem/Real/Threads.antt =====
-- The calls of `write_file`, `gen_id_and_write_file` and `remove` (src/real_file_system.cc) that the
-- threads of the pool make on one object, interleaved. C++ leaves undefined what the first two do at
-- their end, `funlockfile` on a closed stream and a second `unlock` by the destructor of the
-- `unique_lock`; here the first does nothing, and the second frees the mutex, whoever owns it. A
-- call is named by a number; `job` says which it is. The new files are all made in one directory.
pub mod Directory
pub mod Mutex
pub mod Invariant
pub mod Safety
use server_spring.Base.{
  update, ℕ, ◌≡◌, Bool, true, false, if◌then◌else◌, [], ◌∷◌, ◌++◌, Bytes, c_str, Option, none, some,
  Exception, ok, throws,
}
use server_spring.Number.{pos}
use server_spring.Number.Printing.{to_string}
use server_spring.FileSystem.Real.{Disk, get_unique_file_name}

-- `write_file` of a path, or `gen_id_and_write_file`, with the text; or `remove` of a path
pub data Job : Type 0 where
  put : (path body : Bytes) → Job
  post : (body : Bytes) → Job
  delete : (path : Bytes) → Job

abbrev pub writes : Job → Bool
writes (delete _) = false
writes _ = true

abbrev pub body_of : Job → Bytes
body_of (put _ body) = body
body_of (post body) = body
body_of (delete _) = []

-- the disk, and the thread that owns `file_creation_mutex_`
pub record Shared (D : Type 0) : Type 0 where
  pub owner : Option ℕ
  pub disk : D

-- Where a call stands, with its local variables: the path to open, and the number of a new file.
pub data Pc : Type 0 where
  called : Pc
  missing : Pc  -- before `create_directory`
  ready : Pc  -- before the `unique_lock`
  entered : Pc
  chosen : (path : Bytes) (file_name : Option ℕ) → Pc  -- before `fopen`
  opened : (path : Bytes) (file_name : Option ℕ) → Pc  -- before `unlock`
  writing : (path : Bytes) (file_name : Option ℕ) → Pc  -- before `fputs`
  closed : (file_name : Option ℕ) → Pc  -- before `funlockfile` and the destructor
  refused : Pc  -- `fopen` failed, before `unlock`
  failed : Pc  -- before the destructor of the `unique_lock`
  removed : (success : Bool) → Pc  -- before `is_empty`
  emptied : (success : Bool) → Pc  -- before `remove_all`
  deleted : (success : Bool) → Pc  -- the end of `remove`
  returned : (file_name : Option ℕ) → Pc
  thrown : Exception → Pc

abbrev pub file_path : Bytes → ℕ → Bytes
file_path directory n = directory ++ (b'/' ∷ to_string (pos n))

-- the directory that a call makes if it is not there, or deletes if it is empty
abbrev pub directory_of : {D : Type 0} → Disk D → Bytes → Job → Bytes
directory_of on directory (put path _) = on.parent_path path
directory_of on directory (post _) = directory
directory_of on directory (delete path) = on.parent_path path

pub record System (D : Type 0) : Type 0 where
  pub shared : Shared D
  pub pc : ℕ → Pc

abbrev pub init : {D : Type 0} → D → System D
init disk = record { shared = record { owner = none; disk = disk }; pc = λ _. called }

-- The mutex is free where the step of a call is its second `unlock`.
abbrev pub IsHarmless : Pc → Option ℕ → Type 0
IsHarmless (closed _) owner = owner ≡ none
IsHarmless failed owner = owner ≡ none
IsHarmless _ owner = Unit

module _ {D : Type 0} (on : Disk D) (directory : Bytes) (job : ℕ → Job) where
  -- One step of call `i`.
  pub data Move (i : ℕ) (m : Shared D) : Pc → Shared D → Pc → Type 0 where
    found :
        writes (job i) ≡ true
        → on.exists (directory_of on directory (job i)) m.disk ≡ ok true
        → Move i m called m ready
    not_found :
        writes (job i) ≡ true
        → on.exists (directory_of on directory (job i)) m.disk ≡ ok false
        → Move i m called m missing
    exists_throws :
        {e : Exception}
        → writes (job i) ≡ true
        → on.exists (directory_of on directory (job i)) m.disk ≡ throws e
        → Move i m called m (thrown e)
    create :
        {b : Bool} {disk : D}
        → on.create_directory (directory_of on directory (job i)) m.disk ≡ ok (b, disk)
        → Move i m missing (record m { disk = disk }) ready
    create_throws :
        {e : Exception}
        → on.create_directory (directory_of on directory (job i)) m.disk ≡ throws e
        → Move i m missing m (thrown e)
    lock : m.owner ≡ none → Move i m ready (record m { owner = some i }) entered
    choose_path :
        {path body : Bytes} → job i ≡ put path body → Move i m entered m (chosen path none)
    choose_number :
        {body : Bytes} {n : ℕ}
        → job i ≡ post body
        → get_unique_file_name on directory m.disk ≡ ok n
        → Move i m entered m (chosen (file_path directory n) (some n))
    -- the destructor of the `unique_lock`, which does own the mutex
    choose_throws :
        {body : Bytes} {e : Exception}
        → job i ≡ post body
        → get_unique_file_name on directory m.disk ≡ throws e
        → Move i m entered (record m { owner = none }) (thrown e)
    fopen :
        {path : Bytes} {n : Option ℕ} {disk : D}
        → on.open_file (c_str path) m.disk ≡ some disk
        → Move i m (chosen path n) (record m { disk = disk }) (opened path n)
    fopen_fails :
        {path : Bytes} {n : Option ℕ}
        → on.open_file (c_str path) m.disk ≡ none
        → Move i m (chosen path n) m refused
    unlock :
        {path : Bytes} {n : Option ℕ}
        → Move i m (opened path n) (record m { owner = none }) (writing path n)
    fputs :
        {path : Bytes} {n : Option ℕ}
        → Move i m
            (writing path n)
            (record m { disk = (on.append (c_str path) (c_str (body_of (job i))) m.disk).1 })
            (closed n)
    unlock_refused : Move i m refused (record m { owner = none }) failed
    -- the destructor of the `unique_lock`, which still holds itself for the owner
    unlock_again : {n : Option ℕ} → Move i m (closed n) (record m { owner = none }) (returned n)
    unlock_failed : Move i m failed (record m { owner = none }) (returned none)
    remove :
        {path : Bytes} {success : Bool} {disk : D}
        → job i ≡ delete path
        → on.remove path m.disk ≡ ok (success, disk)
        → Move i m called (record m { disk = disk }) (removed success)
    remove_throws :
        {path : Bytes} {e : Exception}
        → job i ≡ delete path
        → on.remove path m.disk ≡ throws e
        → Move i m called m (thrown e)
    is_empty :
        {path : Bytes} {success empty : Bool}
        → job i ≡ delete path
        → on.is_empty (on.parent_path path) m.disk ≡ ok empty
        → Move i m (removed success) m (if empty then emptied success else deleted success)
    is_empty_throws :
        {path : Bytes} {success : Bool} {e : Exception}
        → job i ≡ delete path
        → on.is_empty (on.parent_path path) m.disk ≡ throws e
        → Move i m (removed success) m (thrown e)
    remove_all :
        {path : Bytes} {success : Bool} {disk : D}
        → job i ≡ delete path
        → on.remove_all (on.parent_path path) m.disk ≡ ok disk
        → Move i m (emptied success) (record m { disk = disk }) (deleted success)
    remove_all_throws :
        {path : Bytes} {success : Bool} {e : Exception}
        → job i ≡ delete path
        → on.remove_all (on.parent_path path) m.disk ≡ throws e
        → Move i m (emptied success) m (thrown e)

  pub data Step (s : System D) : System D → Type 0 where
    pick :
        (i : ℕ) {m : Shared D} {p : Pc}
        → Move i s.shared (s.pc i) m p
        → Step s (record { shared = m; pc = update s.pc i p })

  -- From a disk on which no call has begun.
  pub data Reach (disk : D) : System D → Type 0 where
    start : Reach disk (init disk)
    later : {s t : System D} → Reach disk s → Step s t → Reach disk t

  -- The interleavings in which no second `unlock` frees the mutex of another call.
  pub data Calm (disk : D) : System D → Type 0 where
    begun : Calm disk (init disk)
    moved :
        {s : System D} {m : Shared D} {p : Pc}
        → Calm disk s
        → (i : ℕ) → IsHarmless (s.pc i) s.shared.owner
        → Move i s.shared (s.pc i) m p
        → Calm disk (record { shared = m; pc = update s.pc i p })
