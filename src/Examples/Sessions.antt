-- ===== src/Examples/Sessions.antt =====
-- Connections, the palette service, and requests that only read.
use server_spring.Base.{
  ℕ, zero, suc, ◌≡◌, ◌≢◌, refl, arith, true, false, [], ◌∷◌, ◌++◌, Bytes, codes, c_str, equal,
  equal_iff, drop, length, ok, undefined, if◌then◌else◌,
}
use server_spring.Http.{Request, fresh_response}
use server_spring.FileSystem.Fake.{Paths, fake_file_system}
use server_spring.Api.Methods.{handle_api}
use server_spring.Api.ReadOnly.{Keeps, handle_api-Keeps}
use server_spring.Palette.Input.{trim_whitespace}
use server_spring.Palette.Handler.{handle_palette}
use server_spring.Palette.Safety.{Yields}
use server_spring.Palette.Answers.{MatchesStatus, handle_palette-Yields}
use server_spring.Palette.Trimming.{IsCut, trim_whitespace-IsCut}
use server_spring.StdMap.{find, insert, alter, less}
use server_spring.Handlers.Plain.{handle_health}
use server_spring.Delegate.{handle_request, process_request}
use server_spring.Routes.{create, create_factory_map, longest_prefix_matching}
use server_spring.Session.{
  Session, start, receive, has_nul, read_string, max_length, Reaches, started, read_done, writing,
  handle_read,
}
use server_spring.Session.Buffer.{read_string-receive}
use server_spring.Session.Turns.{IsServing, Reaches-IsServing}
use server_spring.Server.{construct, run}
use server_spring.Server.Accepting.{IsAccepting, AsAccepted, run-IsAccepting}
use server_spring.Examples.Configs.{one_root}
use server_spring.Examples.Files.{seven}
use server_spring.Examples.Requests.{lib, machine, parent_path}

trim_whitespace-IsCut_example : IsCut (codes " red \n") (trim_whitespace (codes " red \n"))
trim_whitespace-IsCut_example = trim_whitespace-IsCut (codes " red \n")

trims : trim_whitespace (codes " red \n") ≡ codes " red"
unfolding trim_whitespace codes
trims = refl

-- a request for the palette of " red "
abbrev post_red : Request
post_red = record { method = codes "POST"; target = codes "/palette"; body = codes " red " }

handle_palette-Yields_example :
    Yields MatchesStatus (handle_palette lib machine post_red seven fresh_response)
handle_palette-Yields_example = handle_palette-Yields lib machine post_red seven fresh_response

ne : (a b : Bytes) → equal a b ≡ false → a ≢ b
ne a b e h = ground (arith, equal_iff a b, e, h)

get-ne-post : codes "GET" ≢ codes "POST"
unfolding codes equal
get-ne-post = ne (codes "GET") (codes "POST") refl

get-ne-put : codes "GET" ≢ codes "PUT"
unfolding codes equal
get-ne-put = ne (codes "GET") (codes "PUT") refl

get-ne-delete : codes "GET" ≢ codes "DELETE"
unfolding codes equal
get-ne-delete = ne (codes "GET") (codes "DELETE") refl

handle_api-Keeps_example : Keeps Paths seven (
    handle_api lib
      (fake_file_system parent_path)
      (codes ".")
      fresh_response
      (record { method = codes "GET"; target = codes "/api/d/7"; body = [] })
      seven)
handle_api-Keeps_example =
    handle_api-Keeps lib (fake_file_system parent_path) (codes ".") fresh_response seven
      (record { method = codes "GET"; target = codes "/api/d/7"; body = [] }) get-ne-post get-ne-put
      get-ne-delete

-- what an earlier request left behind a shorter one
read_string-receive_example : read_string (receive (65 ∷ 66 ∷ []) (1 ∷ 2 ∷ 3 ∷ 4 ∷ 0 ∷ [])) ≡ (
    if has_nul (drop 2 (1 ∷ 2 ∷ 3 ∷ 4 ∷ 0 ∷ []))
    then ok ((65 ∷ 66 ∷ []) ++ c_str (drop 2 (1 ∷ 2 ∷ 3 ∷ 4 ∷ 0 ∷ [])))
    else undefined)
read_string-receive_example =
    read_string-receive (65 ∷ 66 ∷ []) (1 ∷ 2 ∷ 3 ∷ 4 ∷ 0 ∷ []) (ground arith)

stale : read_string (receive (65 ∷ 66 ∷ []) (1 ∷ 2 ∷ 3 ∷ 4 ∷ 0 ∷ [])) ≡ ok (65 ∷ 66 ∷ 3 ∷ 4 ∷ [])
unfolding read_string c_str
stale = refl

-- `n` zeros
abbrev pub zeros : ℕ → Bytes
zeros zero = []
zeros (suc n) = 0 ∷ zeros n

pub length-zeros : (n : ℕ) → length (zeros n) ≡ n
length-zeros zero = refl
length-zeros (suc n) = omega (arith, length-zeros n)

abbrev pub health : Request
health = record { method = codes "GET"; target = codes "/health"; body = [] }

-- a session on the array of zeros that has answered a request for "/health", and is writing
abbrev pub answered_session : Session
answered_session = record {
  pending = writing;
  data_ = receive (codes "/health") (zeros max_length);
  http_response = (handle_health lib health fresh_response).1;
}

pub answers_health :
    handle_read lib machine
      (fake_file_system parent_path)
      (create_factory_map one_root)
      false
      (ok (codes "::1"))
      (record (start (zeros max_length)) { data_ = receive (codes "/health") (zeros max_length) })
      seven
    ≡ ok (0, answered_session, seven)
unfolding handle_read process_request handle_request create create_factory_map
    longest_prefix_matching find insert alter less equal codes c_str read_string
answers_health = refl

one_answer :
    Reaches lib machine
      (fake_file_system parent_path)
      (create_factory_map one_root)
      answered_session
      seven
      1
      0
unfolding codes
one_answer =
    read_done (ok (codes "::1")) (codes "/health")
      (started (zeros max_length) seven (length-zeros max_length)) refl (omega arith) answers_health

one_answer-IsServing : IsServing answered_session 1 0
one_answer-IsServing =
    Reaches-IsServing lib machine (fake_file_system parent_path) (create_factory_map one_root)
      one_answer

-- a connection, a failed accept, and a connection, on a pool of four threads
run-IsAccepting_example :
    IsAccepting 3 (run 4 (false ∷ true ∷ false ∷ []) construct)
    × AsAccepted 0 (false ∷ true ∷ false ∷ []) (run 4 (false ∷ true ∷ false ∷ []) construct)
run-IsAccepting_example = run-IsAccepting 3 (false ∷ true ∷ false ∷ [])
