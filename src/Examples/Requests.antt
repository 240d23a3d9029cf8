-- ===== src/Examples/Requests.antt =====
-- Requests to a server with the routes of a config.
use server_spring.Base.{
  false, [], ◌∷◌, Bytes, codes, equal, c_str, length, ◌≡◌, refl, arith, Option, none, some, ok,
  ◌>>=◌,
}
use server_spring.StdMap.{find, insert, alter, less}
use server_spring.Http.{Status, Request, Response, Library, Machine, fresh_response}
use server_spring.FileSystem.Fake.{Paths, fake_file_system}
use server_spring.Api.Methods.{handle_api}
use server_spring.Api.Status.{IsHonest, handle_api-IsHonest}
use server_spring.Routes.{
  RequestHandlerFactory, static_factory, api_factory, create, builtin_routes, handler_map,
  create_factory_map, longest_prefix_matching,
}
use server_spring.Routes.Matching.{
  IsLongest, NoneLonger, All-NoneLonger, longest_prefix_matching-IsLongest,
}
use server_spring.Routes.Builtin.{otherwise, made, find-create_factory_map}
use server_spring.Delegate.{located, handle_request, process_request}
use server_spring.Delegate.Safety.{
  process_request-runs, process_request-refused, process_request-unmatched,
}
use server_spring.Examples.Configs.{one_root}
use server_spring.Examples.Files.{seven}

-- a request is read as a GET of the whole text, unless it is empty
abbrev read_get : Bytes → Option Request
read_get [] = none
read_get (c ∷ s) = some (record { method = codes "GET"; target = c ∷ s; body = [] })

abbrev pub lib : Library
lib = record {
  parse_request = read_get;
  print_request = λ r. r.target;
  prepare_payload = λ r. record r { content_length = some (length r.body) };
  prepare_payload_lem = λ r. refl;
  extension = λ p. [];
  json_name = λ t. none;
}

-- no files outside the fake file system, and no network
abbrev pub machine : Machine Paths
machine = record {
  path_exists = λ p s. ok false;
  path_is_regular_file = λ p s. ok false;
  contents = λ p s. none;
  fetch = λ u s. (none, s);
}

-- every path has the parent "d"
abbrev pub parent_path : Bytes → Bytes
parent_path p = codes "d"

longest_prefix_matching-IsLongest_example :
    IsLongest
      (create_factory_map one_root)
      (codes "/static/a.txt")
      (longest_prefix_matching (create_factory_map one_root) (codes "/static/a.txt"))
longest_prefix_matching-IsLongest_example =
    longest_prefix_matching-IsLongest (create_factory_map one_root) (codes "/static/a.txt")

map_found :
    find (codes "/static/") (create_factory_map one_root)
    ≡ otherwise (find (codes "/static/") builtin_routes) (
        otherwise
          (made static_factory
            (codes "/static/")
            (find (codes "/static/") (handler_map (codes "StaticHandler") one_root)))
          (made api_factory
            (codes "/static/")
            (find (codes "/static/") (handler_map (codes "ApiHandler") one_root))))
map_found = find-create_factory_map one_root (codes "/static/")

health_runs :
    (f : RequestHandlerFactory) × (find
        ((located
          (create_factory_map one_root)
          (some (record { method = codes "GET"; target = codes "/health"; body = [] }))).0)
        (create_factory_map one_root)
      ≡ some f)
    × (process_request lib machine
          (fake_file_system parent_path)
          (create_factory_map one_root)
          (codes "/health")
          fresh_response
          seven
        ≡ (do
          (status, response', s') ←
              handle_request lib machine
                (fake_file_system parent_path)
                (create f)
                (record { method = codes "GET"; target = codes "/health"; body = [] })
                fresh_response
                seven
          ok (response', s')))
unfolding longest_prefix_matching codes
health_runs =
    process_request-runs lib machine (fake_file_system parent_path) one_root (codes "/health")
      fresh_response seven

process_request-refused_example :
    (answer : Response) × (process_request lib machine
        (fake_file_system parent_path)
        (create_factory_map one_root)
        []
        fresh_response
        seven
      ≡ ok (answer, seven))
    × (answer.result ≡ Status.bad_request)
    × (answer.body ≡ codes "Bad Request\n")
process_request-refused_example =
    process_request-refused lib machine (fake_file_system parent_path) one_root [] fresh_response
      seven refl

-- no location begins "*"
star-NoneLonger : NoneLonger (create_factory_map one_root) (c_str (codes "*")) 0
unfolding create_factory_map find insert alter less equal codes c_str
star-NoneLonger = All-NoneLonger (create_factory_map one_root) (codes "*") (ground arith)

process_request-unmatched_example :
    (answer : Response) × (process_request lib machine
        (fake_file_system parent_path)
        (create_factory_map one_root)
        (codes "*")
        fresh_response
        seven
      ≡ ok (answer, seven))
    × (answer.result ≡ Status.not_found)
    × (answer.body ≡ codes "Could not handle request\n")
unfolding codes
process_request-unmatched_example =
    process_request-unmatched lib machine (fake_file_system parent_path) one_root (codes "*")
      fresh_response seven (record { method = codes "GET"; target = codes "*"; body = [] }) refl
      star-NoneLonger

handle_api-IsHonest_example : IsHonest Paths (
    handle_api lib
      (fake_file_system parent_path)
      (codes ".")
      fresh_response
      (record { method = codes "POST"; target = codes "/api/d"; body = codes "x" })
      seven)
handle_api-IsHonest_example =
    handle_api-IsHonest lib (fake_file_system parent_path) (codes ".") fresh_response
      (record { method = codes "POST"; target = codes "/api/d"; body = codes "x" }) seven
