-- ===== src/Examples/Reports.antt =====
-- The lines that the start of the program writes, on small configs.
use server_spring.Base.{
  [], ◌∷◌, Bytes, codes, c_str, equal, ◌≡◌, ◌↔◌, refl, false, Exception, system_error, some, Run,
  ok, throws, ℕ,
}
use server_spring.Number.{is_digit, atoi}
use server_spring.Number.Printing.{decimal, decimal_from}
use server_spring.Log.{Severity, Line, write_severity, level}
use server_spring.Config.Types.{simple, NginxConfig, empty, add}
use server_spring.Config.Parser.{Parsed, parse}
use server_spring.Config.Parser.Report.{parse_logged, Tells, parse_logged-Tells}
use server_spring.StdMap.{alter, insert}
use server_spring.Config.Locations.{
  handle_trailing_slashes, extract_filesystem_map, validate_relative_paths,
}
use server_spring.Config.File.{parse_file}
use server_spring.Config.Port.{get_port}
use server_spring.Config.Port.Report.{get_port_logged}
use server_spring.Config.Port.Report.Silence.{IsQuiet, has_listen, get_port_logged-IsQuiet}
use server_spring.Main.{exit_code, main}
use server_spring.Main.Report.{main_logged, signal_handler}
use server_spring.Main.Report.Laws.{Explains, Ends, main_logged-Explains}
use server_spring.Examples.Configs.{no_slash, one_text}

-- a;
abbrev one_word : NginxConfig
one_word = add (simple (codes "a" ∷ [])) empty

abbrev doubled : Parsed
doubled = record { success = false; config = one_word }

doubled_parsed : parse (codes "a;; b") ≡ ok doubled
unfolding parse codes
doubled_parsed = refl

parse_logged-Tells_example :
    ((parse_logged (codes "a;; b")).outcome ≡ ok doubled)
    × Tells (codes "a;; b") false ((parse_logged (codes "a;; b")).lines)
parse_logged-Tells_example = parse_logged-Tells (codes "a;; b") doubled doubled_parsed

-- listen 80a;
abbrev no_number : NginxConfig
no_number = add (simple (codes "listen" ∷ codes "80a" ∷ [])) empty

get_port_logged-IsQuiet_example :
    ((get_port_logged no_number).outcome ≡ get_port no_number)
    × (IsQuiet (get_port_logged no_number) ↔ (has_listen no_number ≡ false))
get_port_logged-IsQuiet_example = get_port_logged-IsQuiet no_number

abbrev file : Bytes
file = codes "listen 80a;\n"

abbrev what : Exception → Bytes
what e = codes "std::exception"

no_port_found : main (λ n. ok tt) no_slash 2 (some file) ≡ ok (exit_code 1)
unfolding main parse_file parse validate_relative_paths get_port codes equal c_str is_digit atoi
no_port_found = refl

-- the port is taken
abbrev taken : ℕ → Run (Unit {0})
taken n = throws system_error

port_taken : main taken no_slash 2 (some one_text) ≡ ok (exit_code 0)
unfolding main parse_file parse extract_filesystem_map validate_relative_paths get_port codes equal
    c_str is_digit atoi alter insert handle_trailing_slashes
port_taken = refl

main_logged-Explains_example :
    ((main_logged taken what no_slash 2 (codes "my.conf") (some one_text)).outcome
      ≡ ok (exit_code 0))
    × ((line : Line) × Explains taken what no_slash 2 (some one_text) 0 line
        × Ends ((main_logged taken what no_slash 2 (codes "my.conf") (some one_text)).lines) line)
main_logged-Explains_example =
    main_logged-Explains taken what no_slash (codes "my.conf") (some one_text) 2 0 port_taken

-- SIGTERM is 15, SIGINT 2
stopped : (signal_handler 15 2).0.severity ≡ Severity.fatal
unfolding signal_handler
stopped = refl

-- a value beyond the enumerators is written as a number
severities :
    (write_severity (level Severity.fatal) ≡ codes "fatal") × (write_severity 6 ≡ codes "6")
unfolding write_severity decimal decimal_from codes
severities = (refl, refl)
