-- ===== src/Main/Report.antt =====
-- The log of the start of the program: the lines that `main` (src/server_main.cc), the two
-- `Parse` methods and `getPort` (src/config_parser.cc) write, up to the constructor of the server.
pub mod Laws
use server_spring.Base.{
  ℕ, ◌≡◌, ◌⊎◌, inl, inr, refl, sym, ◌∙◌, ap, arith, Bool, true, false, List, [], ◌∷◌, ◌++◌,
  append_assoc, Bytes, codes, Option, none, some, Exception, Run, ok, throws, undefined, spent,
  ◌>>=◌, ◌==◌, if◌then◌else◌, Bool-cases, ok-injective,
}
use server_spring.Number.{pos, negsuc, ℤ}
use server_spring.Log.{Severity, Line, logged, Logged, write, follow, silent, told}
use server_spring.Config.Types.{NginxConfig, empty}
use server_spring.Config.Parser.{Parsed, parse}
use server_spring.Config.Parser.Report.{parse_logged, parse_logged-outcome}
use server_spring.Config.File.{parse_file}
use server_spring.Config.Port.{get_port}
use server_spring.Config.Port.Report.{get_port_logged}
use server_spring.Config.Locations.{FilesystemMap, extract_filesystem_map, validate_relative_paths}
use server_spring.Main.{
  Exit, exit_code, serves, to_short, to_unsigned_short, start_server, catch, main,
}

abbrev pub usage : Line
usage = logged Severity.error (codes "Usage: async_tcp_echo_server <config_file>\n")

abbrev pub parsing : Line
parsing = logged Severity.info (codes "Parsing server config...")

abbrev pub not_parsed : Line
not_parsed = logged Severity.error (codes "Config file not able to be parsed.\n")

abbrev pub no_valid_port : Line
no_valid_port = logged Severity.error (codes "Unable to find valid Port from config file.\n")

abbrev pub not_opened : Bytes → Line
not_opened file_name = logged Severity.error (codes "Failed to open config file: " ++ file_name)

abbrev pub absolute_path : Line
absolute_path =
    logged Severity.error
      (codes "Config file contains at least one absolute path. All paths must be relative. \n")

abbrev pub caught : Bytes → Line
caught what = logged Severity.fatal (codes "Exception: " ++ (what ++ codes "\n"))

-- `Parse` on a file name, behind the parser of the stream
abbrev check_paths : Parsed → Bool → Logged Parsed
check_paths p true = silent (ok p)
check_paths p false = told absolute_path (record p { success = false })

-- `Parse` on a file name
pub parse_file_logged : (Bytes → Bool) → Bytes → Option Bytes → Logged Parsed
parse_file_logged is_relative file_name none =
    told (not_opened file_name) (record { success = false; config = empty })
parse_file_logged is_relative file_name (some text) =
    let m = parse_logged text in
    write m.lines (
      follow m.outcome (λ p. follow (validate_relative_paths is_relative p.config) (check_paths p)))

-- `main` from the port on
abbrev use_port : (ℕ → Run (Unit {0})) → NginxConfig → ℤ → Logged Exit
use_port bind_port config (negsuc n) = told no_valid_port (exit_code 1)
use_port bind_port config (pos port) = follow (extract_filesystem_map config []) (λ m.
    follow (bind_port (to_unsigned_short (to_short port))) (λ bound. silent (ok (serves port m))))

pub start_server_logged : (ℕ → Run (Unit {0})) → Parsed → Logged Exit
start_server_logged bind_port p =
    if p.success
    then (let m = get_port_logged p.config in
        write m.lines (follow m.outcome (use_port bind_port p.config)))
    else told not_parsed (exit_code 1)

-- the handler of exceptions, with their `what()`
abbrev catch_logged : (Exception → Bytes) → List Line → Run Exit → Logged Exit
catch_logged what lines (ok e) = record { lines = lines; outcome = ok e }
catch_logged what lines (throws x) = record {
  lines = lines ++ caught (what x) ∷ [];
  outcome = ok (exit_code 0);
}
catch_logged what lines undefined = record { lines = lines; outcome = undefined }
catch_logged what lines spent = record { lines = lines; outcome = spent }

-- what `main` guards: the parser, and what comes behind it
abbrev guarded : (ℕ → Run (Unit {0})) → (Bytes → Bool) → Bytes → Option Bytes → Logged Exit
guarded bind_port is_relative file_name file =
    let m = parse_file_logged is_relative file_name file in
    write (parsing ∷ m.lines) (follow m.outcome (start_server_logged bind_port))

pub main_logged :
    (ℕ → Run (Unit {0}))
    → (Exception → Bytes)
    → (Bytes → Bool)
    → ℕ
    → Bytes
    → Option Bytes
    → Logged Exit
main_logged bind_port what is_relative argc file_name file =
    let m = guarded bind_port is_relative file_name file in
    if argc == 2 then catch_logged what m.lines m.outcome else told usage (exit_code 1)

-- `signalHandler`, given the number of SIGTERM: its line, and the status of its `exit`
unfoldable pub signal_handler : ℕ → ℕ → Line × ℕ
signal_handler sigterm signum = (
  if signum == sigterm
      then logged Severity.info (codes "Server was aborted...shutting down\n\n")
      else logged Severity.fatal (codes "Server was interrupted...shutting down\n\n"),
  signum,
)
