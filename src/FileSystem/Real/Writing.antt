-- ===== src/FileSystem/Real/Writing.antt =====
-- What `write_file` and `gen_id_and_write_file` have done when the stream is closed, and what
-- becomes of them behind it.
use server_spring.Base.{
  ℕ, ◌≡◌, refl, ◌∙◌, arith, Bool, true, false, [], ◌++◌, Bytes, c_str, none, some, Option-cases,
  inl, inr, Run, ok, undefined, ◌>>=◌,
}
use server_spring.FileSystem.Real.{
  Disk, RealFileSystem, lock, unlock, on_stream, fclose, leave, with_directory, fopen, fputs,
  write_text, write_file, get_unique_file_name, gen_id_and_write_file,
}

-- What POSIX says of `fopen` for writing and of `fputs`: the file that was opened is empty, and a
-- text that could be written is behind what was there.
pub record DiskLaws {D : Type 0} (on : Disk D) : Type 0 where
  pub open_file_lem : (p : Bytes) (d d' : D) → on.open_file p d ≡ some d' → on.contents p d' ≡ []
  pub append_lem :
      (p text : Bytes) (d d' : D)
      → on.append p text d ≡ (true, d')
      → on.contents p d' ≡ on.contents p d ++ text

module _ {D : Type 0} (on : Disk D) where
  -- the state in which `write_text` leaves the object
  pub data IsWritten (path body : Bytes) (before : RealFileSystem D)
      : Bool → RealFileSystem D → Type 0 where
    saved :
        (made : D) (after : RealFileSystem D)
        → on.open_file (c_str path) before.disk ≡ some made
        → on.append (c_str path) (c_str body) made ≡ (true, after.disk)
        → on.contents (c_str path) after.disk ≡ c_str body
        → after.locked ≡ false
        → after.stream ≡ none
        → IsWritten path body before true after
    -- `fputs` fails, and true is returned all the same
    unwritten :
        (made : D) (after : RealFileSystem D)
        → on.open_file (c_str path) before.disk ≡ some made
        → on.append (c_str path) (c_str body) made ≡ (false, after.disk)
        → after.locked ≡ false
        → after.stream ≡ none
        → IsWritten path body before true after
    refused :
        (after : RealFileSystem D)
        → on.open_file (c_str path) before.disk ≡ none
        → after.disk ≡ before.disk
        → after.locked ≡ false
        → IsWritten path body before false after

  opened-IsWritten :
      DiskLaws on
      → (path body : Bytes) (r : RealFileSystem D) (made after : D) (written : Bool)
      → on.open_file (c_str path) r.disk ≡ some made
      → on.append (c_str path) (c_str body) made ≡ (written, after)
      → IsWritten path body r true (record { disk = after; locked = false; stream = none })
  opened-IsWritten laws path body r made after true e w =
      saved made _ e w
        (laws.append_lem (c_str path) (c_str body) made after w
          ∙ rw (laws.open_file_lem (c_str path) r.disk made e) refl)
        refl refl
  opened-IsWritten laws path body r made after false e w = unwritten made _ e w refl refl

  -- Under the mutex, the file is opened and written, up to the first NUL of the text, or it is
  -- opened and cannot be written, and true is returned as well, or it cannot be opened, the disk
  -- stays and false is returned; on every branch the mutex is free, and where the file was opened
  -- the stream is closed.
  pub write_text-IsWritten :
      DiskLaws on
      → (path body : Bytes) (r : RealFileSystem D) → r.locked ≡ true
      → (opened : Bool) × (after : RealFileSystem D) × (write_text on path body r
          ≡ ok (opened, after))
        × IsWritten path body r opened after
  unfolding write_text fopen on_stream unlock fputs fclose
  write_text-IsWritten laws path body r h = elim (Option-cases (on.open_file (c_str path) r.disk)) [
    | inl e ↦ (false, record r { locked = false }, ground (arith, e, h), refused _ e refl refl)
    | inr (d, e) ↦ (
      true,
      record { disk = (on.append (c_str path) (c_str body) d).1; locked = false; stream = none },
      ground (arith, e, h),
      opened-IsWritten laws path body r d _ _ e refl,
    )
  ]

  write_text-leave :
      {A : Type 0} (path body : Bytes) (r : RealFileSystem D) (f : Bool → RealFileSystem D → Run A)
      → r.locked ≡ true
      → (do (opened, r3) ← write_text on path body r; r4 ← leave opened r3; f opened r4) ≡ undefined
  unfolding write_text fopen on_stream unlock fputs fclose leave
  write_text-leave path body r f h = elim (Option-cases (on.open_file (c_str path) r.disk)) [
    | inl e ↦ ground (arith, e, h)
    | inr (d, e) ↦ ground (arith, e, h)
  ]

  with_directory-locked :
      (p : Bytes) (r r' : RealFileSystem D) → with_directory on p r ≡ ok r' → r'.locked ≡ r.locked
  unfolding with_directory
  with_directory-locked p r r' h = ground arith

  -- A `write_file` that finds or makes the directory runs into undefined behaviour: the destructor of
  -- the `unique_lock` unlocks a mutex that is free, and before that, where the file was opened, a
  -- closed stream is unlocked.
  pub write_file_undefined :
      (path body : Bytes) (r r' : RealFileSystem D)
      → r.locked ≡ false
      → with_directory on (on.parent_path path) r ≡ ok r'
      → write_file on path body r ≡ undefined
  unfolding write_file lock
  write_file_undefined path body r r' h e =
      let l = with_directory-locked (on.parent_path path) r r' e ∙ h in
      rw (e, l) (write_text-leave path body (record r' { locked = true }) _ refl)

  -- So does a `gen_id_and_write_file` that finds a number for the file as well.
  pub gen_id_and_write_file_undefined :
      (directory body : Bytes) (r r' : RealFileSystem D) (n : ℕ)
      → r.locked ≡ false
      → with_directory on directory r ≡ ok r'
      → get_unique_file_name on directory r'.disk ≡ ok n
      → gen_id_and_write_file on directory body r ≡ undefined
  unfolding gen_id_and_write_file lock
  gen_id_and_write_file_undefined directory body r r' n h e g =
      let l = with_directory-locked directory r r' e ∙ h in
      rw (e, l, g) (write_text-leave _ body (record r' { locked = true }) _ refl)
