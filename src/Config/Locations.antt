-- ===== src/Config/Locations.antt =====
-- `handle_trailing_slashes`, `validate_relative_paths`, `extract_filesystem_map` and
-- `get_filesystem_map` (src/config_parser.cc).
pub mod Shape
pub mod Relative
pub mod Extracted
pub mod Slashes
use server_spring.Base.{
  ℕ, Bool, true, false, not, ◌&&◌, List, [], ◌∷◌, ◌++◌, Bytes, codes, equal, ◌==◌, get_elem?,
  Option, none, some, Run, ok, ◌>>=◌, at, if◌then◌else◌,
}
use server_spring.StdMap.{StdMap, alter, insert, or_else}
use server_spring.Config.Types.{NginxConfigStatement, NginxConfig, tokens, child_block, statements}

abbrev is_nil : Bytes → Bool
is_nil [] = true
is_nil (c ∷ s) = false

-- `regex_replace(token, std::regex("(/)+$"), "")`: the slashes at the end
pub strip_slashes : Bytes → Bytes
strip_slashes [] = []
strip_slashes (c ∷ s) =
    let rest = strip_slashes s in if c == b'/' && is_nil rest then [] else c ∷ rest

unfoldable pub handle_trailing_slashes : Bytes → Bytes
unfolding strip_slashes
handle_trailing_slashes token = strip_slashes token ++ b'/' ∷ []

-- `statement->tokens_[i]`
pub token : ℕ → NginxConfigStatement → Run Bytes
token i s = at (get_elem? (tokens s) i)

-- `boost::filesystem::path(p).is_relative()`
module _ (is_relative : Bytes → Bool) where
  check_lines : List NginxConfigStatement → Run Bool
  check_lines [] = ok true
  check_lines (location_line ∷ ls) = do
    current_path ← token 1 location_line
    let rest = check_lines ls
    if is_relative current_path then rest else ok false

  -- the lines of a `location`; one without a block is a null pointer
  check_location : NginxConfigStatement → Run Bool
  check_location block_line = do child ← at (child_block block_line); check_lines (statements child)

  check_blocks : List NginxConfigStatement → Run Bool
  check_blocks [] = ok true
  check_blocks (block_line ∷ bs) = do
    name ← token 0 block_line
    let rest = check_blocks bs
    let checked = (do r ← check_location block_line; if r then rest else ok false)
    if equal name (codes "location") then checked else rest

  check_child : Option NginxConfig → Run Bool
  check_child none = ok true
  check_child (some child) = check_blocks (statements child)

  check_servers : List NginxConfigStatement → Run Bool
  check_servers [] = ok true
  check_servers (statement ∷ ss) = do
    name ← token 0 statement
    let rest = check_servers ss
    let checked = (do r ← check_child (child_block statement); if r then rest else ok false)
    if equal name (codes "server") then checked else rest

  unfoldable pub validate_relative_paths : NginxConfig → Run Bool
  unfolding check_servers check_child check_blocks check_location check_lines token
  validate_relative_paths config = check_servers (statements config)

-- handler type to location to root
abbrev pub FilesystemMap : Type 0
FilesystemMap = StdMap (StdMap Bytes)

-- `filesystem_map_[handler_type].insert({location_path, root})`
abbrev pub add_location : Bytes → Bytes → Bytes → FilesystemMap → FilesystemMap
add_location handler_type location_path root =
    alter handler_type (λ m. insert location_path root (or_else [] m))

extract_lines : NginxConfigStatement → List NginxConfigStatement → FilesystemMap → Run FilesystemMap
extract_lines block_line [] m = ok m
extract_lines block_line (location_line ∷ ls) m = do
  path ← token 1 block_line
  handler_type ← token 2 block_line
  root ← token 1 location_line
  extract_lines block_line ls (add_location handler_type (handle_trailing_slashes path) root m)

extract_location : NginxConfigStatement → FilesystemMap → Run FilesystemMap
extract_location block_line m = do
  child ← at (child_block block_line)
  extract_lines block_line (statements child) m

extract_blocks : List NginxConfigStatement → FilesystemMap → Run FilesystemMap
extract_blocks [] m = ok m
extract_blocks (block_line ∷ bs) m = do
  name ← token 0 block_line
  m' ← if equal name (codes "location") then extract_location block_line m else ok m
  extract_blocks bs m'

extract_child : Option NginxConfig → FilesystemMap → Run FilesystemMap
extract_child none m = ok m
extract_child (some child) m = extract_blocks (statements child) m

extract_servers : List NginxConfigStatement → FilesystemMap → Run FilesystemMap
extract_servers [] m = ok m
extract_servers (statement ∷ ss) m = do
  name ← token 0 statement
  m' ← if equal name (codes "server") then extract_child (child_block statement) m else ok m
  extract_servers ss m'

-- on a config whose map holds `m`; `get_filesystem_map` returns the map
unfoldable pub extract_filesystem_map : NginxConfig → FilesystemMap → Run FilesystemMap
unfolding extract_servers extract_child extract_blocks extract_location extract_lines token
extract_filesystem_map config m = extract_servers (statements config) m
