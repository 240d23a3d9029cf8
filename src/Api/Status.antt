-- ===== src/Api/Status.antt =====
-- The return value of every branch against the status of its response.
use server_spring.Base.{
  Exception, sym, ◌∙◌, ◌≢◌, ◌↔◌, zero, suc, ◌≡◌, refl, Bool, true, false, List, [], ◌∷◌, Bytes,
  codes, Option, none, some, Run, ok, throws, undefined, spent, ◌>>=◌, if◌then◌else◌,
}
use server_spring.Number.{ℤ, pos, negsuc}
use server_spring.Http.{Status, Request, Response, Library}
use server_spring.Http.Laws.{set_response-result}
use server_spring.FileSystem.{FileSystem}
use server_spring.Api.Methods.{
  Answer, answer, report_id, report_contents, handle_post, handle_get, handle_found, handle_delete,
  handle_put, dispatch, handle_api,
}

-- An answer whose return value is true exactly at status 200, or a run with no answer.
pub data IsHonest (S : Type 0) : Answer S → Type 0 where
  answered :
      (success : Bool) (response : Response) (s : S)
      → (success ≡ true) ↔ (response.result ≡ Status.ok)
      → IsHonest S (ok (success, response, s))
  thrown : (e : Exception) → IsHonest S (throws e)
  stuck : IsHonest S undefined
  unfinished : IsHonest S spent

module _ {S : Type 0} (lib : Library) (fs : FileSystem S) (data_path : Bytes)
    (response : Response) where
  good :
      (body : Bytes) (s : S) → IsHonest S (answer lib fs data_path response true Status.ok body s)
  good body s =
      answered true _ s
        (λ e. set_response-result lib Status.ok (codes "text/plain") body response, λ e. refl)

  bad :
      (status : Status) (body : Bytes) (s : S)
      → status ≢ Status.ok
      → IsHonest S (answer lib fs data_path response false status body s)
  bad status body s n = answered false _ s (
    λ e. cc,
    λ e. absurd (n (sym (set_response-result lib status (codes "text/plain") body response) ∙ e)),
  )

  bad_request :
      (body : Bytes) (s : S)
      → IsHonest S (answer lib fs data_path response false Status.bad_request body s)
  bad_request body s = bad Status.bad_request body s (λ e. cc)

  server_error :
      (body : Bytes) (s : S)
      → IsHonest S (answer lib fs data_path response false Status.internal_server_error body s)
  server_error body s = bad Status.internal_server_error body s (λ e. cc)

  if-IsHonest :
      (b : Bool) (x y : Answer S) → IsHonest S x → IsHonest S y → IsHonest S (if b then x else y)
  if-IsHonest true x y h k = h
  if-IsHonest false x y h k = k

  bind-IsHonest :
      {A : Type 0} (m : Run A) (f : A → Answer S)
      → ((a : A) → IsHonest S (f a))
      → IsHonest S (m >>= f)
  bind-IsHonest (ok a) f h = h a
  bind-IsHonest (throws e) f h = thrown e
  bind-IsHonest undefined f h = stuck
  bind-IsHonest spent f h = unfinished

  report_id-IsHonest : (id : ℤ) (s : S) → IsHonest S (report_id lib fs data_path response id s)
  report_id-IsHonest (negsuc zero) s = server_error _ s
  report_id-IsHonest (negsuc (suc n)) s = good _ s
  report_id-IsHonest (pos n) s = good _ s

  post-IsHonest :
      (uri : List Bytes) (r : Request) (s : S)
      → IsHonest S (handle_post lib fs data_path response uri r s)
  unfolding handle_post
  post-IsHonest uri r s =
      search (if-IsHonest, bind-IsHonest, bad_request, report_id-IsHonest) depth 9

  report_contents-IsHonest :
      (o : Option Bytes) (s : S) → IsHonest S (report_contents lib fs data_path response o s)
  report_contents-IsHonest none s = bad_request _ s
  report_contents-IsHonest (some b) s = good b s

  found-IsHonest :
      (path : Bytes) (uri : List Bytes) (s : S)
      → IsHonest S (handle_found lib fs data_path response path uri s)
  unfolding handle_found
  found-IsHonest path [] s = bad_request _ s
  found-IsHonest path (e ∷ []) s = search (bind-IsHonest, good)
  found-IsHonest path (e ∷ n ∷ []) s = search (bind-IsHonest, report_contents-IsHonest)
  found-IsHonest path (e ∷ n ∷ x ∷ uri) s = bad_request _ s

  get-IsHonest :
      (uri : List Bytes) (s : S) → IsHonest S (handle_get lib fs data_path response uri s)
  unfolding handle_get
  get-IsHonest uri s = search (if-IsHonest, bind-IsHonest, bad_request, found-IsHonest) depth 9

  delete-IsHonest :
      (uri : List Bytes) (s : S) → IsHonest S (handle_delete lib fs data_path response uri s)
  unfolding handle_delete
  delete-IsHonest uri s = search (if-IsHonest, bind-IsHonest, good, bad_request) depth 12

  put-IsHonest :
      (uri : List Bytes) (r : Request) (s : S)
      → IsHonest S (handle_put lib fs data_path response uri r s)
  unfolding handle_put
  put-IsHonest uri r s =
      search (if-IsHonest, bind-IsHonest, good, bad_request, server_error) depth 12

  dispatch-IsHonest :
      (uri : List Bytes) (r : Request) (s : S)
      → IsHonest S (dispatch lib fs data_path response uri r s)
  unfolding dispatch
  dispatch-IsHonest uri r s =
      search (if-IsHonest, post-IsHonest, get-IsHonest, put-IsHonest, delete-IsHonest, bad_request)
        depth 9

  -- On every branch that answers, whatever the file system does, the API handler returns true exactly
  -- where its response has status 200.
  pub handle_api-IsHonest :
      (r : Request) (s : S) → IsHonest S (handle_api lib fs data_path response r s)
  unfolding handle_api
  handle_api-IsHonest r s = search (if-IsHonest, bind-IsHonest, dispatch-IsHonest, bad_request)
