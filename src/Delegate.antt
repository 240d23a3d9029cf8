-- ===== src/Delegate.antt =====
-- `RequestHandlerDelegate::processRequest` (src/request_handler_delegate.cc) and the virtual call of
-- `handle_request`.
pub mod Safety
pub mod Metric
use server_spring.Base.{
  Bool, Bytes, codes, c_str, Option, none, some, Run, ok, undefined, ◌>>=◌, at,
}
use server_spring.StdMap.{find}
use server_spring.Http.{Request, Response, Library, Machine}
use server_spring.FileSystem.{FileSystem}
use server_spring.Handlers.Plain.{
  handle_echo, handle_sleep, handle_health, handle_error, handle_bad_request,
}
use server_spring.Handlers.Files.{handle_static, handle_color}
use server_spring.Api.Methods.{handle_api}
use server_spring.Palette.Handler.{handle_palette}
use server_spring.Routes.{
  RequestHandlerFactory, RequestHandler, echo, sleep, health, palette, color, error, bad_request,
  static, api, create, Routes, longest_prefix_matching,
}

-- the request that the handler gets where the parser refuses the text
abbrev no_request : Request
no_request = record { method = codes ""; target = codes ""; body = codes "" }

-- the location matched and the request; where the text is refused, "bad request"
abbrev pub located : Routes → Option Request → Bytes × Request
located factory_routes none = (codes "bad request", no_request)
located factory_routes (some r) = (longest_prefix_matching factory_routes (c_str r.target), r)

module _ {S : Type 0} (lib : Library) (machine : Machine S) (fs : FileSystem S) where
  abbrev with_state : S → Bool × Response → Run (Bool × Response × S)
  with_state s (success, response) = ok (success, response, s)

  -- `handler->handle_request(httpRequest, httpResponse)`
  unfoldable pub handle_request :
      RequestHandler → Request → Response → S → Run (Bool × Response × S)
  handle_request echo r response s = with_state s (handle_echo lib r response)
  handle_request sleep r response s = with_state s (handle_sleep lib r response)
  handle_request health r response s = with_state s (handle_health lib r response)
  handle_request error r response s = with_state s (handle_error lib r response)
  handle_request bad_request r response s = with_state s (handle_bad_request lib r response)
  handle_request color r response s = do
    answer ← handle_color lib machine r s response
    with_state s answer
  handle_request (static location root) r response s = do
    answer ← handle_static lib machine location root r s response
    with_state s answer
  handle_request (api location data_path) r response s = handle_api lib fs data_path response r s
  handle_request palette r response s = handle_palette lib machine r s response

  -- `factory_routes_[matched_location_path]` is null where there is no such key; the return value
  -- of the handler only goes into the log
  unfoldable pub process_request : Routes → Bytes → Response → S → Run (Response × S)
  process_request factory_routes request_string response s =
      let (matched, r) = located factory_routes (lib.parse_request request_string) in
      (do
        factory ← at (find matched factory_routes)
        (status, response', s') ← handle_request (create factory) r response s
        ok (response', s'))
