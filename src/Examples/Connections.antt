-- ===== src/Examples/Connections.antt =====
-- A connection that asks for "/health", among the callbacks of the program, and its lines in the log.
use native.Mathlib.Decide.{ℕ_discrete}
use server_spring.Base.{ℕ, zero, suc, ◌∷◌, ◌≡◌, refl, arith, [], Bytes, codes, c_str, equal, ok}
use server_spring.StdMap.{find, insert, alter, less}
use server_spring.Http.{fresh_response}
use server_spring.FileSystem.Fake.{Paths, fake_file_system}
use server_spring.Handlers.Plain.{handle_health}
use server_spring.Delegate.{handle_request, process_request}
use server_spring.Delegate.Metric.{process_logged}
use server_spring.Delegate.Metric.Laws.{Metric, process_logged-Metric}
use server_spring.Routes.{create, create_factory_map, longest_prefix_matching}
use server_spring.Server.{start_accept, handle_accept, construct}
use server_spring.Session.{max_length, start}
use server_spring.Connections.{Connection, System, Reach, begun, later, accept, read}
use server_spring.Connections.Invariant.{IsRunning, Reach-IsRunning}
use server_spring.Examples.Configs.{one_root}
use server_spring.Examples.Files.{seven}
use server_spring.Examples.Requests.{lib, machine, parent_path}
use server_spring.Examples.Sessions.{zeros, length-zeros, answers_health, health}

abbrev ec_message : Bytes → Bytes
ec_message text = codes "bad method"

-- `processRequest` on the text "/health"
health_answered :
    process_request lib machine
      (fake_file_system parent_path)
      (create_factory_map one_root)
      (codes "/health")
      fresh_response
      seven
    ≡ ok ((handle_health lib health fresh_response).1, seven)
unfolding process_request handle_request create create_factory_map longest_prefix_matching find
    insert alter less equal codes c_str handle_health
health_answered = refl

process_logged-Metric_example :
    ((process_logged lib machine
        (fake_file_system parent_path)
        ec_message
        (create_factory_map one_root)
        (codes "/health")
        (codes "::1")
        fresh_response
        seven).outcome
      ≡ ok ((handle_health lib health fresh_response).1, seven))
    × Metric lib machine
        (fake_file_system parent_path)
        ec_message
        (create_factory_map one_root)
        (codes "/health")
        (codes "::1")
        fresh_response
        seven
        ((process_logged lib machine
          (fake_file_system parent_path)
          ec_message
          (create_factory_map one_root)
          (codes "/health")
          (codes "::1")
          fresh_response
          seven).lines)
        ((handle_health lib health fresh_response).1)
process_logged-Metric_example =
    process_logged-Metric lib machine (fake_file_system parent_path) ec_message
      (create_factory_map one_root) (codes "/health") (codes "::1") fresh_response seven
      (handle_health lib health fresh_response).1 seven health_answered

-- before a session is made
abbrev nothing : ℕ → Connection
nothing i = record { session = start []; requests = 0; responses = 0 }

-- one connection is accepted, and its request is read
abbrev one_request :
    (s : System Paths) × Reach lib machine
      (fake_file_system parent_path)
      (create_factory_map one_root)
      seven
      s
unfolding ℕ_discrete construct start_accept handle_accept codes
one_request = (
  _,
  later (later (begun nothing) (accept 0 [] (zeros max_length) refl (length-zeros max_length)))
      (read 0 (ok (codes "::1")) (codes "/health") refl refl (omega arith) answers_health),
)

Reach-IsRunning_example : IsRunning one_request.0
Reach-IsRunning_example =
    Reach-IsRunning lib machine (fake_file_system parent_path) (create_factory_map one_root)
      one_request.1

-- one connection is accepted
abbrev accepted_one :
    (s : System Paths) × Reach lib machine
      (fake_file_system parent_path)
      (create_factory_map one_root)
      seven
      s
unfolding ℕ_discrete construct start_accept handle_accept
accepted_one =
    (_, later (begun nothing) (accept 0 [] (zeros max_length) refl (length-zeros max_length)))

-- a read that fills the array with bytes that are not NUL
ones : ℕ → Bytes
ones zero = []
ones (suc n) = 1 ∷ ones n
