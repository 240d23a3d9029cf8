-- ===== src/FileSystem.antt =====
-- The interface `FileSystem` (include/file_system.h), over the states `S` of an implementation. A
-- method that changes the state, or that can fail, is a `Run`.
pub mod Fake
pub mod Real
pub mod Agreement
use server_spring.Base.{Bool, Bytes, Option, Run, ◌+◌, ◌-◌, ◌^◌, ◌%◌, take, length}
use server_spring.Number.{ℤ}

pub record FileSystem (S : Type 0) : Type 0 where
  pub exists : Bytes → S → Run Bool
  pub create_directory : Bytes → S → Run (Bool × S)
  pub is_regular_file : Bytes → S → Run Bool
  pub remove : Bytes → S → Run (Bool × S)
  pub write_file : Bytes → Bytes → S → Run (Bool × S)
  pub gen_id_and_write_file : Bytes → Bytes → S → Run (ℤ × S)
  pub read_file : Bytes → S → Run (Option Bytes)
  pub get_file_list : Bytes → S → Run Bytes

-- `result.substr(0, result.length() - 2)`, the length in 64 bits
abbrev pub drop_separator : Bytes → Bytes
drop_separator result = take ((length result + 2 ^ 64 - 2) % 2 ^ 64) result
