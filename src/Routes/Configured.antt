-- ===== src/Routes/Configured.antt =====
-- From the statements of a config to the routes of the server.
use server_spring.Base.{Bytes, codes, [], ◌≡◌, refl, ◌∙◌, ok}
use server_spring.StdMap.{find}
use server_spring.Config.Types.{NginxConfig}
use server_spring.Config.Locations.{FilesystemMap, extract_filesystem_map}
use server_spring.Config.Locations.Shape.{entries, IsShaped}
use server_spring.Config.Locations.Extracted.{first_root, extract_filesystem_map_lem}
use server_spring.Routes.{static_factory, api_factory, builtin_routes, create_factory_map}
use server_spring.Routes.Builtin.{otherwise, made, find-create_factory_map}

-- The routes made of the map that a config of the expected shape gives: a location has its fixed
-- factory where there is one, else a static handler on the path of the first line for it in a
-- StaticHandler block, else an API handler on that in an ApiHandler block, else none.
pub create_factory_map-extract :
    (c : NginxConfig)
    → IsShaped c
    → (m : FilesystemMap) × (extract_filesystem_map c [] ≡ ok m)
      × ((l : Bytes)
          → find l (create_factory_map m)
            ≡ otherwise (find l builtin_routes) (
                otherwise
                  (made static_factory l (first_root (codes "StaticHandler") l (entries c)))
                  (made api_factory l (first_root (codes "ApiHandler") l (entries c)))))
create_factory_map-extract c h =
    let (m, e, n, roots) = extract_filesystem_map_lem c h in
    (
      m,
      e,
      λ l.
          find-create_factory_map m l
          ∙ rw (roots (codes "StaticHandler") l, roots (codes "ApiHandler") l) refl,
    )
