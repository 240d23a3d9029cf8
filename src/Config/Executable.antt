-- ===== src/Config/Executable.antt =====
-- `main` of src/config_parser_main.cc, which parses a file and prints what was parsed.
use server_spring.Base.{
  ℕ, ◌≡◌, refl, Bool, Bytes, codes, c_str, Option, some, Run, ok, ◌>>=◌, ◌==◌, if◌then◌else◌,
}
use server_spring.Config.Types.{NginxConfig}
use server_spring.Config.Printable.{IsPrintable}
use server_spring.Config.Printer.{to_string}
use server_spring.Config.RoundTrip.{parse-to_string}
use server_spring.Config.Locations.{validate_relative_paths}
use server_spring.Config.File.{parse_file}

-- the value that `main` returns and what it prints, whatever `Parse` returned
pub config_parser_main : (Bytes → Bool) → ℕ → Option Bytes → Run (ℕ × Bytes)
config_parser_main is_relative argc file =
    if argc == 2
    then (do p ← parse_file is_relative file; ok (0, c_str (to_string 0 p.config)))
    else ok (1, codes "Usage: ./config_parser <path to config file>\n")

-- Given the text of a printable config at any depth, whose text at depth 0 has no NUL, the program
-- prints that text, the same config without the indentation, and returns 0: what it prints, it
-- prints again. The check of the paths has to return, with either result.
pub config_parser_main-to_string :
    (is_relative : Bytes → Bool) (c : NginxConfig) (depth : ℕ) (relative : Bool)
    → IsPrintable c
    → c_str (to_string 0 c) ≡ to_string 0 c
    → validate_relative_paths is_relative c ≡ ok relative
    → config_parser_main is_relative 2 (some (to_string depth c)) ≡ ok (0, to_string 0 c)
unfolding config_parser_main parse_file
config_parser_main-to_string is_relative c depth relative p text valid =
    rw (parse-to_string c depth p, valid, text) refl
