-- ===== src/Delegate/Metric.antt =====
-- The lines that `processRequest` itself writes to the log (src/request_handler_delegate.cc), the
-- response metric among them, and `getName` of the handlers. The lines of the handlers, between
-- the second and the third, are left out.
pub mod Laws
use server_spring.Base.{
  Bool, true, false, List, [], ◌∷◌, ◌++◌, Bytes, codes, c_str, Option, none, some, Run, ok, throws,
  undefined, spent, ◌>>=◌, at, if◌then◌else◌,
}
use server_spring.Number.{pos}
use server_spring.Number.Printing.{to_string}
use server_spring.StdMap.{find}
use server_spring.Http.{code, Request, Response, Library, Machine}
use server_spring.FileSystem.{FileSystem}
use server_spring.Log.{Severity, Line, logged, Logged, write, follow}
use server_spring.Routes.{
  RequestHandlerFactory, RequestHandler, echo, sleep, health, palette, color, error, bad_request,
  static, api, create, Routes,
}
use server_spring.Delegate.{located, handle_request}

-- `getName`
pub get_name : RequestHandler → Bytes
get_name echo = codes "EchoHandler"
get_name sleep = codes "SleepHandler"
get_name health = codes "HealthHandler"
get_name palette = codes "PaletteHandler"
get_name color = codes "ColorHandler"
get_name error = codes "ErrorHandler"
get_name bad_request = codes "BadRequestHandler"
get_name (static location root) = codes "StaticHandler"
get_name (api location data_path) = codes "ApiHandler"

-- "[ResponseMetric] ..."
pub response_metric : Bool → Response → Request → RequestHandler → Bytes → Line
response_metric status response r handler endpoint = logged Severity.info (
    codes "[ResponseMetric] ResponseCode: "
    ++ (to_string (pos (code response.result))
        ++ (codes " RequestPath: "
            ++ (r.target
                ++ (codes " MatchedRequestHandler: "
                    ++ (get_name handler
                        ++ (codes " RequestIP: "
                            ++ (endpoint
                                ++ (if status
                                    then codes " Message: Successfully handled request.\n"
                                    else codes " Message: Unable to handle request.\n")))))))))

-- the line on the text of the request, with the message of the parser's error code
pub parse_line : (Bytes → Bytes) → Bytes → Option Request → Line
parse_line ec_message text none =
    logged Severity.error
      (codes "Could not parse request string: " ++ (ec_message text ++ codes "\n"))
parse_line ec_message text (some r) =
    logged Severity.info
      (codes "Successfully extracted request URI, " ++ (c_str r.target ++ codes ".\n"))

module _ {S : Type 0} (lib : Library) (machine : Machine S) (fs : FileSystem S)
    (ec_message : Bytes → Bytes) where
  abbrev answer_logged :
      Request → RequestHandler → Bytes → Bool × Response × S → Logged (Response × S)
  answer_logged r handler endpoint (status, response, s) = record {
    lines = response_metric status response r handler endpoint ∷ [];
    outcome = ok (response, s);
  }

  -- `processRequest` with the endpoint of the client
  pub process_logged : Routes → Bytes → Bytes → Response → S → Logged (Response × S)
  process_logged factory_routes request_string endpoint response s =
      let request = lib.parse_request request_string in
      let (matched, r) = located factory_routes request in
      write (parse_line ec_message request_string request ∷ []) (
        follow (at (find matched factory_routes)) (λ factory.
          let handler = create factory in
          write (logged Severity.info (codes "Created request handler using factory.\n") ∷ []) (
            follow (handle_request lib machine fs handler r response s)
              (answer_logged r handler endpoint))))
