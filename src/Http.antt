-- ===== src/Http.antt =====
-- Requests, responses and `RequestHandler::set_response`
-- (include/request_handler/request_handler.h, src/request_handler/request_handler.cc), and what the
-- handlers take from boost, libcurl and the machine.
pub mod Laws
use server_spring.Base.{ℕ, ◌≡◌, Bool, Bytes, codes, Option, none, some, length, Run}
use server_spring.Number.{ℤ}

pub data Status : Type 0 where
  ok bad_request not_found internal_server_error : Status

-- `result_int`
abbrev pub code : Status → ℕ
code Status.ok = 200
code Status.bad_request = 400
code Status.not_found = 404
code Status.internal_server_error = 500

pub record Request : Type 0 where
  pub method : Bytes
  pub target : Bytes
  pub body : Bytes

-- the parts of `http::response<http::string_body>` that the program sets
pub record Response : Type 0 where
  pub version : ℕ
  pub result : Status
  pub content_type : Option Bytes
  pub allow_origin : Option Bytes
  pub content_length : Option ℕ
  pub body : Bytes

-- `httpResponse_ = {}`
abbrev pub fresh_response : Response
fresh_response = record {
  version = 11;
  result = Status.ok;
  content_type = none;
  allow_origin = none;
  content_length = none;
  body = codes "";
}

-- boost::beast: the parser, `operator<<` of a request, and `prepare_payload`, which sets the length
-- of the body and nothing else of what is modelled. boost::filesystem: paths. ptree: the string at
-- "name.value" of a JSON text, `none` where it throws.
pub record Library : Type 0 where
  pub parse_request : Bytes → Option Request
  pub print_request : Request → Bytes
  pub prepare_payload : Response → Response
  pub prepare_payload_lem :
      (r : Response) → prepare_payload r ≡ record r { content_length = some (length r.body) }
  pub extension : Bytes → Bytes
  pub json_name : Bytes → Option Bytes

-- The file system and the network, over the states `S` of the machine. `path_exists` and
-- `path_is_regular_file` throw where the path cannot be asked for, as a name that is too long.
-- `contents` is what an
-- `std::ifstream` reads, `none` where it does not open. `fetch` is a request by libcurl, `none`
-- where curlpp throws.
pub record Machine (S : Type 0) : Type 0 where
  pub path_exists : Bytes → S → Run Bool
  pub path_is_regular_file : Bytes → S → Run Bool
  pub contents : Bytes → S → Option Bytes
  pub fetch : Bytes → S → Option Bytes × S

unfoldable pub set_response : Library → Status → Bytes → Bytes → Response → Response
set_response lib status content_type body r = lib.prepare_payload (record r {
  version = 11;
  result = status;
  content_type = some content_type;
  body = body;
  allow_origin = some (codes "*");
})
