-- ===== src/Handlers/Plain.antt =====
-- The handlers that look at no file: echo, sleep, health, error and bad request.
use server_spring.Base.{Bool, true, codes, ◌++◌}
use server_spring.Http.{Status, Request, Response, Library, set_response}

module _ (lib : Library) (r : Request) (response : Response) where
  unfoldable pub handle_echo : Bool × Response
  handle_echo =
      (true, set_response lib Status.ok (codes "text/plain") (lib.print_request r) response)

  -- after a sleep of `SLEEP_TIME`
  unfoldable pub handle_sleep : Bool × Response
  handle_sleep = (
    true,
    set_response lib Status.ok (codes "text/plain")
        (codes "Thread slept for " ++ (codes "500" ++ codes " seconds.\n")) response,
  )

  unfoldable pub handle_health : Bool × Response
  handle_health = (true, set_response lib Status.ok (codes "text/plain") (codes "OK\n") response)

  unfoldable pub handle_error : Bool × Response
  handle_error = (
    true,
    set_response lib Status.not_found (codes "text/plain") (codes "Could not handle request\n")
        response,
  )

  unfoldable pub handle_bad_request : Bool × Response
  handle_bad_request = (
    true,
    set_response lib Status.bad_request (codes "text/plain") (codes "Bad Request\n") response,
  )
