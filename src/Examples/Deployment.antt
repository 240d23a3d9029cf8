-- ===== src/Examples/Deployment.antt =====
-- The program on the text of a config, up to the answer to a request.
use server_spring.Base.{
  ℕ, zero, suc, ◌≤◌, take, length, leb, ◌++◌, Bool, ◌∷◌, Bool-cases, inl, inr, sym, ◌∙◌, ap, subst,
  none, [], Bytes, codes, c_str, ◌≡◌, refl, arith, true, some, Run, ok, throws, filesystem_error,
  ◌>>=◌, equal,
}
use server_spring.StdMap.{find, insert, alter, less}
use server_spring.Http.{Request, Response, Machine, fresh_response}
use server_spring.FileSystem.Fake.{Paths, fake_file_system}
use server_spring.Config.Token.{is_delimiter, is_space}
use server_spring.Config.Printable.{IsToken, plain, IsPrintable}
use server_spring.Config.Printer.{to_string}
use server_spring.Config.Locations.{FilesystemMap, handle_trailing_slashes}
use server_spring.Config.Locations.Relative.{all_relative}
use server_spring.Config.Locations.Shape.{entries}
use server_spring.Handlers.Files.{no_file, send_file, replace_first}
use server_spring.Handlers.Files.Sent.{IsSent}
use server_spring.Main.Served.{answered, main-IsSent}
use server_spring.Routes.{
  static_factory, builtin_routes, RequestHandlerFactory, create, create_factory_map,
}
use server_spring.Delegate.{handle_request, process_request}
use server_spring.Main.{serves, main}
use server_spring.Main.Deployed.{configured, NoneBeyond, IsMatched, main-process_request}
use server_spring.Examples.Configs.{one_location, get_port_8080, one_location-IsShaped, no_slash}
use server_spring.Examples.Requests.{lib, machine, parent_path}
use server_spring.Examples.Files.{seven}

listen-IsToken : IsToken (codes "listen")
unfolding codes is_delimiter is_space
listen-IsToken = plain refl (ground arith)

port-IsToken : IsToken (codes "8080")
unfolding codes is_delimiter is_space
port-IsToken = plain refl (ground arith)

server-IsToken : IsToken (codes "server")
unfolding codes is_delimiter is_space
server-IsToken = plain refl (ground arith)

location-IsToken : IsToken (codes "location")
unfolding codes is_delimiter is_space
location-IsToken = plain refl (ground arith)

static-IsToken : IsToken (codes "/static/")
unfolding codes is_delimiter is_space
static-IsToken = plain refl (ground arith)

handler-IsToken : IsToken (codes "StaticHandler")
unfolding codes is_delimiter is_space
handler-IsToken = plain refl (ground arith)

root-IsToken : IsToken (codes "root")
unfolding codes is_delimiter is_space
root-IsToken = plain refl (ground arith)

files-IsToken : IsToken (codes "./files")
unfolding codes is_delimiter is_space
files-IsToken = plain refl (ground arith)

one_location-IsPrintable : IsPrintable one_location
one_location-IsPrintable = (
  (listen-IsToken, (port-IsToken, tt)),
  (
    (
      (server-IsToken, tt),
      (
        (
          (location-IsToken, (static-IsToken, (handler-IsToken, tt))),
          ((root-IsToken, (files-IsToken, tt)), tt),
        ),
        tt,
      ),
    ),
    tt,
  ),
)

relative : all_relative no_slash (entries one_location) ≡ true
unfolding codes equal
relative = refl

-- a GET of a file of the static location
abbrev request : Request
request = record { method = codes "GET"; target = codes "/static/a"; body = [] }

parsed : lib.parse_request (codes "/static/a") ≡ some request
unfolding codes
parsed = refl

main-process_request_example :
    (m : FilesystemMap) × (location : Bytes) × (f : RequestHandlerFactory) × (main
        (λ n. ok tt)
        no_slash
        2
        (some (to_string 0 one_location))
      ≡ ok (serves 8080 m))
    × IsMatched one_location (c_str (codes "/static/a")) location f
    × (process_request lib machine
          (fake_file_system parent_path)
          (create_factory_map m)
          (codes "/static/a")
          fresh_response
          seven
        ≡ (do
          (status, response', s') ←
              handle_request lib machine
                (fake_file_system parent_path)
                (create f)
                request
                fresh_response
                seven
          ok (response', s')))
main-process_request_example =
    main-process_request lib machine (fake_file_system parent_path) (λ n. ok tt) no_slash
      one_location 0 8080 (codes "/static/a") request fresh_response seven one_location-IsPrintable
      one_location-IsShaped relative get_port_8080 refl parsed

-- every path is a file that holds "hi"
abbrev disk : Machine Paths
disk = record {
  path_exists = λ p s. ok true;
  path_is_regular_file = λ p s. ok true;
  contents = λ p s. some (codes "hi");
  fetch = λ u s. (none, s);
}

abbrev target : Bytes
target = codes "/static/a"

length-take-le : (n : ℕ) (s : Bytes) → length (take n s) ≤ length s
length-take-le zero s = omega arith
length-take-le (suc n) [] = omega arith
length-take-le (suc n) (c ∷ s) = omega (arith, length-take-le n s)

whole-none : configured one_location target ≡ none
unfolding find insert alter less equal codes builtin_routes handle_trailing_slashes
whole-none = refl

static_found :
    configured one_location (codes "/static/")
    ≡ some (static_factory (codes "/static/") (codes "./files"))
unfolding find insert alter less equal codes builtin_routes handle_trailing_slashes
static_found = refl

none_beyond : NoneBeyond one_location target 8
unfolding codes
none_beyond l f e b = elim (Bool-cases (leb (length l) 8)) [
  | inl short ↦ ground (arith, short)
  | inr long ↦
      let bound : length l ≤ 9 =
        subst (λ t. length t ≤ 9) (sym b) (length-take-le (length l) target) in
      let nine : length l ≡ 9 = ground (arith, long, bound) in
      let whole : l ≡ target = b ∙ ap (λ n. take n target) nine in
      absurd cc (sym (ap (configured one_location) whole ∙ whole-none) ∙ e)
]

main-IsSent_example :
    (m : FilesystemMap) × (rest : Bytes) × (run : Run (Bool × Response)) × (main
        (λ n. ok tt)
        no_slash
        2
        (some (to_string 0 one_location))
      ≡ ok (serves 8080 m))
    × (c_str target ≡ codes "/static/" ++ rest)
    × (process_request lib disk
          (fake_file_system parent_path)
          (create_factory_map m)
          target
          fresh_response
          seven
        ≡ answered seven run)
    × IsSent lib disk (replace_first (codes "./files" ++ (codes "/" ++ rest))) seven run
unfolding codes c_str
main-IsSent_example =
    main-IsSent lib disk (fake_file_system parent_path) (λ n. ok tt) no_slash one_location 0 8080
      target request fresh_response seven (codes "/static/") (codes "./files")
      one_location-IsPrintable one_location-IsShaped relative get_port_8080 refl parsed static_found
      refl none_beyond (omega arith)

-- every name is too long
abbrev refusing : Machine Paths
refusing = record disk { path_exists = λ p s. throws filesystem_error }

name_too_long : send_file lib refusing (codes "a") seven fresh_response ≡ throws filesystem_error
unfolding send_file no_file
name_too_long = refl
