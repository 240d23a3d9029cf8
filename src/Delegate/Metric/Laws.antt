-- ===== src/Delegate/Metric/Laws.antt =====
-- What the response metric says of a request that was answered.
use server_spring.Base.{
  ◌≡◌, ◌≢◌, ◌↔◌, refl, ap, Bool, true, false, List, [], ◌∷◌, ◌++◌, Bytes, codes, Option, none, some,
  c_str, Run, ok, ◌>>=◌, subst, Option-cases, throws, undefined, spent, ok-injective, inl, inr,
}
use server_spring.StdMap.{find}
use server_spring.Http.{code, Status, Request, Response, Library, Machine}
use server_spring.Http.Laws.{set_response-result}
use server_spring.FileSystem.{FileSystem}
use server_spring.Log.{follow, Severity, Line, logged}
use server_spring.Routes.{
  RequestHandlerFactory, RequestHandler, echo, sleep, health, palette, color, error, bad_request,
  static, api, create, Routes,
}
use server_spring.Handlers.Plain.{
  handle_echo, handle_sleep, handle_health, handle_error, handle_bad_request,
}
use server_spring.Handlers.Files.{target_path, send_file, handle_static, handle_color}
use server_spring.Handlers.Files.Outcome.{IsMatching, good-IsMatching, send_file-IsMatching}
use server_spring.Api.Status.{IsHonest, answered, thrown, stuck, unfinished, handle_api-IsHonest}
use server_spring.Palette.Safety.{Yields, returned}
use server_spring.Palette.Answers.{MatchesStatus, handle_palette-Yields}
use server_spring.Delegate.{located, handle_request, process_request}
use server_spring.Number.{pos}
use server_spring.Number.Printing.{to_string}
use server_spring.Delegate.Metric.{
  get_name, response_metric, parse_line, answer_logged, process_logged,
}

-- The value that a handler returns, for the status of its response: the handlers of errors always
-- return true, the others exactly at status 200.
abbrev pub Reports : RequestHandler → Bool → Status → Type 0
Reports error success status = (success ≡ true) × (status ≡ Status.not_found)
Reports bad_request success status = (success ≡ true) × (status ≡ Status.bad_request)
Reports _ success status = (success ≡ true) ↔ (status ≡ Status.ok)

-- What the metric says of a response with this status: that the request was handled, where the
-- status is 200, or the handler is that of unmatched or of bad requests, with 404 or 400; or that it
-- could not be handled, where neither holds.
pub data Says (h : RequestHandler) (status : Status) : Bytes → Type 0 where
  good : status ≡ Status.ok → Says h status (codes " Message: Successfully handled request.\n")
  unmatched :
      h ≡ error
      → status ≡ Status.not_found
      → Says h status (codes " Message: Successfully handled request.\n")
  refused :
      h ≡ bad_request
      → status ≡ Status.bad_request
      → Says h status (codes " Message: Successfully handled request.\n")
  unable :
      status ≢ Status.ok
      → h ≢ error
      → h ≢ bad_request
      → Says h status (codes " Message: Unable to handle request.\n")

-- the line of the metric, by the status, the target, the name of the handler, the endpoint and the
-- message
abbrev pub metric_line : Status → Bytes → Bytes → Bytes → Bytes → Line
metric_line status target name endpoint message = logged Severity.info (
    codes "[ResponseMetric] ResponseCode: "
    ++ (to_string (pos (code status))
        ++ (codes " RequestPath: "
            ++ (target
                ++ (codes " MatchedRequestHandler: "
                    ++ (name ++ (codes " RequestIP: " ++ (endpoint ++ message))))))))

-- the line on the text of a request: that the parser refuses it, with its message, or its target
pub data TellsText (message : Bytes) : Option Request → Line → Type 0 where
  not_parsed :
      TellsText message none (
        logged Severity.error (codes "Could not parse request string: " ++ (message ++ codes "\n")))
  parsed :
      (r : Request)
      → TellsText message (some r) (
          logged Severity.info
            (codes "Successfully extracted request URI, " ++ (c_str r.target ++ codes ".\n")))

parse_line-TellsText :
    (ec_message : Bytes → Bytes) (text : Bytes) (request : Option Request)
    → TellsText (ec_message text) request (parse_line ec_message text request)
unfolding parse_line
parse_line-TellsText ec_message text none = not_parsed
parse_line-TellsText ec_message text (some r) = parsed r

abbrev IsTold : RequestHandler → Bytes → Response → Request → Line → Type 0
IsTold h endpoint answer r line =
    (message : Bytes) × (line ≡ metric_line answer.result r.target (get_name h) endpoint message)
    × Says h answer.result message

other-IsTold :
    (h : RequestHandler) (success : Bool) (endpoint : Bytes) (answer : Response) (r : Request)
    → h ≢ error
    → h ≢ bad_request
    → (success ≡ true) ↔ (answer.result ≡ Status.ok)
    → IsTold h endpoint answer r (response_metric success answer r h endpoint)
unfolding response_metric
other-IsTold h true endpoint answer r n n' (f, g) = (_, refl, good (f refl))
other-IsTold h false endpoint answer r n n' (f, g) = (_, refl, unable (λ e. cc (g e)) n n')

Reports-IsTold :
    (h : RequestHandler) (success : Bool) (endpoint : Bytes) (answer : Response) (r : Request)
    → Reports h success answer.result
    → IsTold h endpoint answer r (response_metric success answer r h endpoint)
unfolding response_metric
Reports-IsTold error true endpoint answer r (e, f) = (_, refl, unmatched refl f)
Reports-IsTold error false endpoint answer r (e, f) = absurd cc
Reports-IsTold bad_request true endpoint answer r (e, f) = (_, refl, refused refl f)
Reports-IsTold bad_request false endpoint answer r (e, f) = absurd cc
Reports-IsTold echo b endpoint answer r q =
    other-IsTold echo b endpoint answer r (λ e. cc) (λ e. cc) q
Reports-IsTold sleep b endpoint answer r q =
    other-IsTold sleep b endpoint answer r (λ e. cc) (λ e. cc) q
Reports-IsTold health b endpoint answer r q =
    other-IsTold health b endpoint answer r (λ e. cc) (λ e. cc) q
Reports-IsTold palette b endpoint answer r q =
    other-IsTold palette b endpoint answer r (λ e. cc) (λ e. cc) q
Reports-IsTold color b endpoint answer r q =
    other-IsTold color b endpoint answer r (λ e. cc) (λ e. cc) q
Reports-IsTold (static location root) b endpoint answer r q =
    other-IsTold (static location root) b endpoint answer r (λ e. cc) (λ e. cc) q
Reports-IsTold (api location data_path) b endpoint answer r q =
    other-IsTold (api location data_path) b endpoint answer r (λ e. cc) (λ e. cc) q

-- of an answer
abbrev pub Answers : {S : Type 0} → RequestHandler → Run (Bool × Response × S) → Type 0
Answers h (ok (success, response, s)) = Reports h success response.result
Answers h _ = Unit

undefined-ne-ok : {A : Type 0} {a : A} → undefined ≢ ok a
undefined-ne-ok e = cc

IsHonest-Answers :
    {S : Type 0} (location data_path : Bytes) {m : Run (Bool × Response × S)}
    → IsHonest S m
    → Answers (api location data_path) m
IsHonest-Answers location data_path (answered success response s h) = h
IsHonest-Answers location data_path (thrown e) = tt
IsHonest-Answers location data_path stuck = tt
IsHonest-Answers location data_path unfinished = tt

Yields-Answers :
    {S : Type 0} {m : Run (Bool × Response × S)} → Yields MatchesStatus m → Answers palette m
Yields-Answers (returned a h) = h
Yields-Answers (Yields.thrown e) = tt

-- the answer of a handler that sends a file
file-Answers :
    {S : Type 0} (h : RequestHandler) (m : Run (Bool × Response)) (s : S)
    → ((x : Bool × Response) → IsMatching x → Reports h x.0 x.1.result)
    → ((x : Bool × Response) → m ≡ ok x → IsMatching x)
    → Answers {S = S} h (m >>= λ x. ok (x.0, x.1, s))
file-Answers h (ok x) s f g = f x (g x refl)
file-Answers h (throws e) s f g = tt
file-Answers h undefined s f g = tt
file-Answers h spent s f g = tt

module _ {S : Type 0} (lib : Library) (machine : Machine S) (fs : FileSystem S) where
  handle_request-Answers :
      (h : RequestHandler) (r : Request) (response : Response) (s : S)
      → Answers h (handle_request lib machine fs h r response s)
  unfolding handle_request handle_echo handle_sleep handle_health handle_error handle_bad_request
      handle_static handle_color
  handle_request-Answers echo r response s = good-IsMatching lib _ _ response
  handle_request-Answers sleep r response s = good-IsMatching lib _ _ response
  handle_request-Answers health r response s = good-IsMatching lib _ _ response
  handle_request-Answers error r response s = (refl, set_response-result lib _ _ _ response)
  handle_request-Answers bad_request r response s = (refl, set_response-result lib _ _ _ response)
  handle_request-Answers color r response s =
      file-Answers color (send_file lib machine _ s response) s (λ x e. e)
        (send_file-IsMatching lib machine _ s response)
  handle_request-Answers (static location root) r response s =
      file-Answers (static location root)
        (send_file lib machine (target_path location root r.target) s response) s (λ x e. e)
        (send_file-IsMatching lib machine (target_path location root r.target) s response)
  handle_request-Answers (api location data_path) r response s =
      IsHonest-Answers location data_path (handle_api-IsHonest lib fs data_path response r s)
  handle_request-Answers palette r response s =
      Yields-Answers (handle_palette-Yields lib machine r s response)

  module _ (ec_message : Bytes → Bytes) (routes : Routes) (text endpoint : Bytes)
      (response : Response) (s : S) where
    abbrev request : Option Request
    request = lib.parse_request text

    -- the lines of a request that was answered
    abbrev pub Metric : List Line → Response → Type 0
    Metric lines answer =
        (f : RequestHandlerFactory) × (message : Bytes) × (first : Line) × (find
            ((located routes request).0) routes
          ≡ some f)
        × (lines
            ≡ first
              ∷ logged Severity.info (codes "Created request handler using factory.\n")
              ∷ metric_line answer.result ((located routes request).1).target (get_name (create f))
                  endpoint message
              ∷ [])
        × TellsText (ec_message text) request first
        × Says (create f) answer.result message

    -- the end of a call, behind the creation of the handler
    answer_logged-Reports :
        (h : RequestHandler) (r : Request) (m : Run (Bool × Response × S)) (answer : Response)
        (s' : S)
        → Answers h m
        → ◌>>=◌ {B = Response × S} m (λ x. ok (x.1, x.2)) ≡ ok (answer, s')
        → (success : Bool) × (follow m (answer_logged lib machine fs ec_message r h endpoint)
            ≡ record {
              lines = response_metric success answer r h endpoint ∷ [];
              outcome = ok (answer, s');
            })
          × Reports h success answer.result
    answer_logged-Reports h r (ok (success, response', s'')) answer s' a e =
        let same = ok-injective e in
        (
          success,
          ap
              (λ (x : Response × S). record {
                lines = response_metric success x.0 r h endpoint ∷ [];
                outcome = ok x;
              })
              same,
          subst (λ (x : Response × S). Reports h success x.0.result) same a,
        )
    answer_logged-Reports h r (throws x) answer s' a e = absurd cc
    answer_logged-Reports h r undefined answer s' a e = absurd cc
    answer_logged-Reports h r spent answer s' a e = absurd cc

    -- Where `processRequest` answers, it does so with its log, and its own lines are three: on the
    -- text, on the handler created, and the metric, with the code of the response, the target, the
    -- handler and the endpoint. The metric says that the request was handled exactly where the code
    -- is 200, or where the handler is that of unmatched or of bad requests, with 404 or 400.
    pub process_logged-Metric :
        (answer : Response) (s' : S)
        → process_request lib machine fs routes text response s ≡ ok (answer, s')
        → ((process_logged lib machine fs ec_message routes text endpoint response s).outcome
            ≡ ok (answer, s'))
          × Metric
              ((process_logged lib machine fs ec_message routes text endpoint response s).lines)
              answer
    unfolding process_request process_logged
    process_logged-Metric answer s' e =
        elim (Option-cases (find ((located routes request).0) routes)) [
          | inl none_found ↦ absurd (undefined-ne-ok (rw none_found at e))
          | inr (f, found) ↦
              let r = (located routes request).1 in
              let (success, q, reports) =
                answer_logged-Reports (create f) r
                  (handle_request lib machine fs (create f) r response s) answer s'
                  (handle_request-Answers (create f) r response s) (rw found at e) in
              let (message, line, says) =
                Reports-IsTold (create f) success endpoint answer r reports in
              (
                rw (found, q) refl,
                (
                  f,
                  message,
                  _,
                  found,
                  rw (found, q, line) refl,
                  parse_line-TellsText ec_message text request,
                  says,
                ),
              )
        ]
