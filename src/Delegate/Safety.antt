-- ===== src/Delegate/Safety.antt =====
-- `processRequest` with the routes that `create_factory_map` makes: it finds a factory for every
-- request, and what it answers where it is the text or the location that is wrong.
use server_spring.Base.{
  Bytes, codes, c_str, Option, none, some, Run, ok, ◌>>=◌, ◌≡◌, refl, arith, equal, equal_iff,
  Bool-cases, inl, inr,
}
use server_spring.StdMap.{find}
use server_spring.Http.{Request, Response, Library, Machine, Status, set_response}
use server_spring.Http.Laws.{set_response-result, set_response-body}
use server_spring.Handlers.Plain.{handle_bad_request, handle_error}
use server_spring.FileSystem.{FileSystem}
use server_spring.Config.Locations.{FilesystemMap}
use server_spring.Routes.{
  RequestHandlerFactory, error_factory, bad_request_factory, Routes, create, create_factory_map,
  longest_prefix_matching,
}
use server_spring.Routes.Matching.{
  HasKey, here, there, longest, fallback, NoneLonger, longest_prefix_matching-IsLongest,
}
use server_spring.Routes.Builtin.{error-IsFound, refused-IsFound}
use server_spring.Delegate.{located, handle_request, process_request}

-- the location has a factory
abbrev pub IsFound : Bytes → Routes → Type 0
IsFound key routes = (f : RequestHandlerFactory) × (find key routes ≡ some f)

pub HasKey-IsFound : {key : Bytes} {routes : Routes} → HasKey key routes → IsFound key routes
unfolding find
HasKey-IsFound {key = key} (here {f = f}) = (f, rw ((equal_iff key key).1 refl) refl)
HasKey-IsFound {key = key} (there {e = e} {rs = rs} k) = elim (Bool-cases (equal e.0 key)) [
  | inl h ↦ (e.1, rw h refl)
  | inr h ↦ ((HasKey-IsFound k).0, rw h ((HasKey-IsFound k).1))
]

located-IsFound :
    (m : FilesystemMap) (r : Option Request)
    → IsFound ((located (create_factory_map m) r).0) (create_factory_map m)
located-IsFound m none = (bad_request_factory, refused-IsFound m)
located-IsFound m (some r) =
    elim (longest_prefix_matching-IsLongest (create_factory_map m) (c_str r.target)) [
      | longest k b h l ↦ HasKey-IsFound k
      | fallback q l ↦ (error_factory, rw q (error-IsFound m))
    ]

module _ {S : Type 0} (lib : Library) (machine : Machine S) (fs : FileSystem S)
    (m : FilesystemMap) where
  abbrev serve : Bytes → Response → S → Run (Response × S)
  serve = process_request lib machine fs (create_factory_map m)

  -- With the routes of any config, the location of any request has a factory, and the handler that
  -- it creates runs: its response and the state it leaves are the result, and where it fails, so
  -- does `processRequest`.
  pub process_request-runs :
      (text : Bytes) (response : Response) (s : S)
      → (f : RequestHandlerFactory) × (find
            ((located (create_factory_map m) (lib.parse_request text)).0)
            (create_factory_map m)
          ≡ some f)
        × (serve text response s ≡ (do
          (status, response', s') ←
              handle_request lib machine fs
                (create f)
                ((located (create_factory_map m) (lib.parse_request text)).1)
                response
                s
          ok (response', s')))
  unfolding process_request
  process_request-runs text response s =
      let (f, h) = located-IsFound m (lib.parse_request text) in (f, h, rw h refl)

  -- A text that is no request is answered with status 400, and the state stays.
  pub process_request-refused :
      (text : Bytes) (response : Response) (s : S)
      → lib.parse_request text ≡ none
      → (answer : Response) × (serve text response s ≡ ok (answer, s))
        × (answer.result ≡ Status.bad_request)
        × (answer.body ≡ codes "Bad Request\n")
  unfolding process_request create handle_request handle_bad_request
  process_request-refused text response s h = (
    set_response lib Status.bad_request (codes "text/plain") (codes "Bad Request\n") response,
    rw (h, refused-IsFound m) refl,
    set_response-result lib _ _ _ _,
    set_response-body lib _ _ _ _,
  )

  -- A request whose target begins with no location of one byte or more is answered with status 404,
  -- and the state stays.
  pub process_request-unmatched :
      (text : Bytes) (response : Response) (s : S) (r : Request)
      → lib.parse_request text ≡ some r
      → NoneLonger (create_factory_map m) (c_str r.target) 0
      → (answer : Response) × (serve text response s ≡ ok (answer, s))
        × (answer.result ≡ Status.not_found)
        × (answer.body ≡ codes "Could not handle request\n")
  unfolding process_request create handle_request handle_error
  process_request-unmatched text response s r h l = (
    set_response lib Status.not_found (codes "text/plain") (codes "Could not handle request\n")
        response,
    rw (h, unmatched, error-IsFound m) refl,
    set_response-result lib _ _ _ _,
    set_response-body lib _ _ _ _,
  )
    where
      unmatched : longest_prefix_matching (create_factory_map m) (c_str r.target) ≡ codes "/"
      unmatched = elim (longest_prefix_matching-IsLongest (create_factory_map m) (c_str r.target)) [
        | longest k b p _ ↦ absurd (omega (arith, l _ k b, p))
        | fallback q _ ↦ q
      ]
