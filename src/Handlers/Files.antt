-- ===== src/Handlers/Files.antt =====
-- `StaticHandler` and `ColorHandler` (src/request_handler/static_handler.cc, color_handler.cc).
pub mod Outcome
pub mod Sent
use server_spring.Base.{
  Bool, true, false, not, [], ◌∷◌, ◌++◌, Bytes, codes, c_str, drop, length, Option, none, some,
  if◌then◌else◌, Run, ok, ◌>>=◌,
}
use server_spring.Http.{Status, Request, Response, Library, Machine, set_response}
use server_spring.MimeTypes.{extension_to_type}

-- `target.replace(0, 1, "../")`
abbrev pub replace_first : Bytes → Bytes
replace_first s = codes "../" ++ drop 1 s

-- the file of a target below a location: the location's length is erased from its front
unfoldable pub target_path : Bytes → Bytes → Bytes → Bytes
target_path location root target =
    replace_first (root ++ (codes "/" ++ drop (length location) (c_str target)))

module _ {S : Type 0} (lib : Library) (machine : Machine S) where
  -- from `target_path` on, the same in both handlers
  pub send_opened : Bytes → Option Bytes → Response → Bool × Response
  send_opened path none response = (
    false,
    set_response lib Status.not_found (codes "text/plain") (codes "Cannot open file\n") response,
  )
  send_opened path (some body) response = (
    true,
    set_response lib Status.ok (extension_to_type (lib.extension path)) (body ++ b'\n' ∷ [])
        response,
  )

  abbrev pub file_missing : Response → Bool × Response
  file_missing response = (
    false,
    set_response lib Status.not_found (codes "text/plain") (codes "File not found\n") response,
  )

  -- `!exists(path) || !is_regular_file(path)`
  unfoldable pub no_file : Bytes → S → Run Bool
  no_file path s = do
    there ← machine.path_exists path s
    if there then (do regular ← machine.path_is_regular_file path s; ok (not regular)) else ok true

  unfoldable pub send_file : Bytes → S → Response → Run (Bool × Response)
  unfolding send_opened no_file
  send_file path s response = do
    absent ← no_file path s
    ok (
        if absent
        then file_missing response
        else send_opened path (machine.contents path s) response)

  unfoldable pub handle_static : Bytes → Bytes → Request → S → Response → Run (Bool × Response)
  handle_static location root r s response =
      send_file (target_path location root r.target) s response

  unfoldable pub handle_color : Request → S → Response → Run (Bool × Response)
  handle_color r s response = send_file (codes "../frontend/build/index.html") s response
