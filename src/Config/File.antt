-- ===== src/Config/File.antt =====
-- `NginxConfigParser::Parse` on a file name (src/config_parser.cc).
use server_spring.Base.{Bool, false, Bytes, Option, none, some, Run, ok, ◌>>=◌, if◌then◌else◌}
use server_spring.Config.Types.{empty}
use server_spring.Config.Parser.{Parsed, parse}
use server_spring.Config.Locations.{validate_relative_paths}

-- `is_relative` is that of boost::filesystem::path; the file is `none` where it cannot be opened.
-- The paths are checked whether or not the text was parsed.
unfoldable pub parse_file : (Bytes → Bool) → Option Bytes → Run Parsed
parse_file is_relative none = ok (record { success = false; config = empty })
parse_file is_relative (some text) = do
  p ← parse text
  relative ← validate_relative_paths is_relative p.config
  ok (record p { success = if relative then p.success else false })
