-- ===== src/Examples/Configs.antt =====
-- Configs of the repository's form, and what the methods of `NginxConfig` give on them.
use server_spring.Base.{
  ℕ, Bool, true, [], ◌∷◌, Bytes, codes, ◌≡◌, ◌↔◌, refl, arith, some, ok, undefined, equal, c_str,
  leb, if◌then◌else◌, not, ◌==◌, ◌++◌,
}
use server_spring.Number.{pos, int_max, leading, is_digit, atoi}
use server_spring.Config.Types.{simple, block, NginxConfig, empty, add}
use server_spring.Config.Port.{is_digits, no_port, get_port}
use server_spring.Config.Port.Laws.{PortOf, get_port-PortOf, get_port-listen}
use server_spring.Config.Locations.{
  FilesystemMap, extract_filesystem_map, validate_relative_paths, handle_trailing_slashes,
}
use server_spring.Config.Locations.Shape.{entries, IsShaped}
use server_spring.Config.Locations.Relative.{all_relative, validate_relative_paths_lem}
use server_spring.Config.Locations.Extracted.{
  IsNested, root_of, first_root, extract_filesystem_map_lem,
}
use server_spring.Config.Locations.Slashes.{handle_trailing_slashes_stable}
use server_spring.Routes.{static_factory, api_factory, builtin_routes, create_factory_map}
use server_spring.Routes.Builtin.{otherwise, made}
use server_spring.Routes.Configured.{create_factory_map-extract}
use server_spring.StdMap.{find, alter, insert}
use server_spring.Config.File.{parse_file}
use server_spring.Config.Parser.{parse}
use server_spring.Main.{serves, main, to_short, to_unsigned_short}
use server_spring.Main.Laws.{IsServing, main-IsServing, to_unsigned_short-to_short}

-- listen 8080; server { location /static/ StaticHandler { root ./files; } }
abbrev pub one_location : NginxConfig
one_location = add (simple (codes "listen" ∷ codes "8080" ∷ [])) (
    add
      (block (codes "server" ∷ []) (
        add
          (block (codes "location" ∷ codes "/static/" ∷ codes "StaticHandler" ∷ [])
            (add (simple (codes "root" ∷ codes "./files" ∷ [])) empty))
          empty))
      empty)

pub get_port_8080 : get_port one_location ≡ ok (pos 8080)
unfolding get_port equal codes c_str is_digit atoi
get_port_8080 = refl

get_port-PortOf_example : PortOf one_location (pos 8080)
get_port-PortOf_example = get_port-PortOf one_location (pos 8080) get_port_8080

get_port-listen_example :
    get_port (add (simple (codes "listen" ∷ codes "99999999999" ∷ [])) one_location) ≡ (
      if is_digits (c_str (codes "99999999999"))
      then if leb (leading 0 (c_str (codes "99999999999"))) int_max
        then if leb (leading 0 (c_str (codes "99999999999"))) 65535
          then ok (pos (leading 0 (c_str (codes "99999999999"))))
          else ok no_port
        else undefined
      else ok no_port)
get_port-listen_example = get_port-listen (codes "99999999999") one_location

-- a port above the largest `int`
get_port_overflow :
    get_port (add (simple (codes "listen" ∷ codes "99999999999" ∷ [])) empty) ≡ undefined
unfolding get_port equal codes c_str is_digit atoi
get_port_overflow = refl

pub one_location-IsShaped : IsShaped one_location
unfolding equal codes
one_location-IsShaped = ground arith

-- `path::is_relative`: no slash at the front
abbrev pub no_slash : Bytes → Bool
no_slash [] = true
no_slash (c ∷ s) = not (c == 47)

validate_relative_paths_lem_example :
    validate_relative_paths no_slash one_location
    ≡ ok (all_relative no_slash (entries one_location))
validate_relative_paths_lem_example =
    validate_relative_paths_lem no_slash one_location one_location-IsShaped

extract_filesystem_map_lem_example :
    (m : FilesystemMap) × (extract_filesystem_map one_location [] ≡ ok m)
    × IsNested m
    × ((h l : Bytes) → root_of h l m ≡ first_root h l (entries one_location))
extract_filesystem_map_lem_example = extract_filesystem_map_lem one_location one_location-IsShaped

create_factory_map-extract_example :
    (m : FilesystemMap) × (extract_filesystem_map one_location [] ≡ ok m)
    × ((l : Bytes)
        → find l (create_factory_map m)
          ≡ otherwise (find l builtin_routes) (
              otherwise
                (made static_factory l
                  (first_root (codes "StaticHandler") l (entries one_location)))
                (made api_factory l (first_root (codes "ApiHandler") l (entries one_location)))))
create_factory_map-extract_example = create_factory_map-extract one_location one_location-IsShaped

-- the map of `one_location`
abbrev pub one_root : FilesystemMap
one_root = (codes "StaticHandler", (codes "/static/", codes "./files") ∷ []) ∷ []

extract_one : extract_filesystem_map one_location [] ≡ ok one_root
unfolding extract_filesystem_map codes equal alter insert handle_trailing_slashes
extract_one = refl

slashes_stable :
    (handle_trailing_slashes (codes "/static" ++ b'/' ∷ [])
      ≡ handle_trailing_slashes (codes "/static"))
    × (handle_trailing_slashes (handle_trailing_slashes (codes "/static"))
        ≡ handle_trailing_slashes (codes "/static"))
slashes_stable = handle_trailing_slashes_stable (codes "/static")

-- the text of `one_location`
abbrev pub one_text : Bytes
one_text =
    codes "listen 8080;\nserver {\n  location /static/ StaticHandler {\n    root ./files;\n  }\n}\n"

main_one : main (λ n. ok tt) no_slash 2 (some one_text) ≡ ok (serves 8080 one_root)
unfolding main parse_file parse extract_filesystem_map validate_relative_paths get_port codes equal
    c_str is_digit atoi alter insert handle_trailing_slashes
main_one = refl

-- the program and the file
abbrev argc : ℕ
argc = 2

main-IsServing_example :
    (main (λ n. ok tt) no_slash argc (some one_text) ≡ ok (serves 8080 one_root))
    ↔ ((argc ≡ 2) × IsServing (λ n. ok tt) no_slash (some one_text) 8080 one_root)
main-IsServing_example = main-IsServing (λ n. ok tt) no_slash argc (some one_text) 8080 one_root

port_through_short : to_unsigned_short (to_short 40000) ≡ 40000
port_through_short = to_unsigned_short-to_short 40000 (omega arith)
