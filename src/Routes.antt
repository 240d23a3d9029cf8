-- ===== src/Routes.antt =====
-- The request handler factories (src/request_handler_factory), `Server::create_factory_map`
-- (src/server.cc) and `longest_prefix_matching` (src/request_handler_delegate.cc).
pub mod Matching
pub mod Builtin
pub mod Configured
use server_spring.Base.{
  ℕ, Bool, ◌&&◌, List, [], ◌∷◌, Bytes, codes, equal, ltb, length, take, Option, none, some,
  if◌then◌else◌,
}
use server_spring.StdMap.{StdMap, find, insert, or_else}
use server_spring.Config.Locations.{FilesystemMap}

-- the classes derived from `RequestHandlerFactory`; those with fields have a location and a path
pub data RequestHandlerFactory : Type 0 where
  echo_factory sleep_factory health_factory palette_factory color_factory : RequestHandlerFactory
  error_factory bad_request_factory : RequestHandlerFactory
  static_factory api_factory : Bytes → Bytes → RequestHandlerFactory

-- the classes derived from `RequestHandler`
pub data RequestHandler : Type 0 where
  echo sleep health palette color error bad_request : RequestHandler
  static api : Bytes → Bytes → RequestHandler

-- `create` of each factory
unfoldable pub create : RequestHandlerFactory → RequestHandler
create echo_factory = echo
create sleep_factory = sleep
create health_factory = health
create palette_factory = palette
create color_factory = color
create error_factory = error
create bad_request_factory = bad_request
create (static_factory location root) = static location root
create (api_factory location data_path) = api location data_path

abbrev pub Routes : Type 0
Routes = StdMap RequestHandlerFactory

-- the routes that do not depend on the config, in the order of their insertion
unfoldable pub builtin_routes : Routes
builtin_routes =
    let routes = insert (codes "/echo") echo_factory [] in
    let routes = insert (codes "/sleep") sleep_factory routes in
    let routes = insert (codes "/health") health_factory routes in
    let routes = insert (codes "/palette") palette_factory routes in
    let routes = insert (codes "/color") color_factory routes in
    let routes = insert (codes "/") error_factory routes in
    insert (codes "bad request") bad_request_factory routes

-- the loops over `static_handler_map` and `api_handler_map`
pub insert_each : (Bytes → Bytes → RequestHandlerFactory) → StdMap Bytes → Routes → Routes
insert_each factory [] routes = routes
insert_each factory ((location, path) ∷ m) routes =
    insert_each factory m (insert location (factory location path) routes)

-- `filesystem_map[name]`, empty where there is none
abbrev pub handler_map : Bytes → FilesystemMap → StdMap Bytes
handler_map name filesystem_map = or_else [] (find name filesystem_map)

unfoldable pub create_factory_map : FilesystemMap → Routes
unfolding builtin_routes insert_each
create_factory_map filesystem_map =
    insert_each api_factory (handler_map (codes "ApiHandler") filesystem_map) (
      insert_each static_factory (handler_map (codes "StaticHandler") filesystem_map)
        builtin_routes)

-- the loop of `longest_prefix_matching`: a key that begins the URI and is longer than the last
pub match_from : Bytes → Bytes → ℕ → Routes → Bytes
match_from uri matched max_match_size [] = matched
match_from uri matched max_match_size ((root, factory) ∷ routes) =
    let better = equal root (take (length root) uri) && ltb max_match_size (length root) in
    match_from uri (if better then root else matched)
      (if better then length root else max_match_size) routes

unfoldable pub longest_prefix_matching : Routes → Bytes → Bytes
unfolding match_from
longest_prefix_matching factory_routes uri = match_from uri (codes "/") 0 factory_routes
