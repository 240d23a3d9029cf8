-- ===== src/Connections/Crash.antt =====
-- What can end the program in a callback.
use server_spring.Base.{◌≢◌, Run, codes, Option, none, ◌≡◌, Bool, true, false, Bytes, some, ok}
use server_spring.StdMap.{find}
use server_spring.Http.{Request, Response, Library, Machine}
use server_spring.FileSystem.{FileSystem}
use server_spring.Config.Locations.{FilesystemMap}
use server_spring.Routes.{
  Routes, RequestHandlerFactory, RequestHandler, palette, color, static, api, create,
  create_factory_map,
}
use server_spring.Handlers.Files.{target_path, no_file}
use server_spring.Delegate.{located}
use server_spring.Session.{writing, Session, has_nul, read_string}

-- the handlers that take neither the interface of the file system nor the network
abbrev pub is_plain : RequestHandler → Bool
is_plain (api location data_path) = false
is_plain palette = false
is_plain _ = true

-- the file that a handler asks for
pub asked : RequestHandler → Request → Option Bytes
asked (static location root) r = some (target_path location root r.target)
asked color r = some (codes "../frontend/build/index.html")
asked _ r = none

module _ {S : Type 0} (lib : Library) (machine : Machine S) (fs : FileSystem S)
    (m : FilesystemMap) where
  -- the question for a file does not return
  pub data NoFile (s : S) (h : RequestHandler) (r : Request) : Type 0 where
    unasked :
        (path : Bytes)
        → asked h r ≡ some path
        → ((absent : Bool) → no_file lib machine path s ≢ ok absent)
        → NoFile s h r

  -- Why a read does not return: the array holds no NUL, the endpoint of the client cannot be told,
  -- the text goes to the API handler or to the palette handler, or to a handler of files that cannot
  -- ask for its file.
  pub data Cause (s : S) (endpoint : Run Bytes) (data_ : Bytes) : Type 0 where
    no_nul : has_nul data_ ≡ false → Cause s endpoint data_
    no_endpoint : ((client : Bytes) → endpoint ≢ ok client) → Cause s endpoint data_
    outside :
        (text : Bytes) (f : RequestHandlerFactory)
        → read_string data_ ≡ ok text
        → find ((located (create_factory_map m) (lib.parse_request text)).0) (create_factory_map m)
          ≡ some f
        → is_plain (create f) ≡ false
        → Cause s endpoint data_
    file_failed :
        (text : Bytes) (f : RequestHandlerFactory)
        → read_string data_ ≡ ok text
        → find ((located (create_factory_map m) (lib.parse_request text)).0) (create_factory_map m)
          ≡ some f
        → NoFile s (create f) ((located (create_factory_map m) (lib.parse_request text)).1)
        → Cause s endpoint data_

  abbrev answered : Session → Response → Session
  answered session answer = record session { pending = writing; http_response = answer }
