-- ===== src/Api/ReadOnly.antt =====
-- The requests on which the API handler changes nothing.
use server_spring.Base.{
  Exception, ◌≡◌, ◌≢◌, arith, Bool, true, false, List, [], ◌∷◌, Bytes, codes, equal, equal_iff,
  Option, none, some, Run, ok, throws, undefined, spent, ◌>>=◌, if◌then◌else◌,
}
use server_spring.Http.{Request, Response, Library}
use server_spring.FileSystem.{FileSystem}
use server_spring.Api.Methods.{Answer, report_contents, handle_found, handle_get, handle_api}

-- An answer that leaves the state as it was, or a run with no answer.
pub data Keeps (S : Type 0) (s : S) : Answer S → Type 0 where
  answered : (success : Bool) (response : Response) → Keeps S s (ok (success, response, s))
  thrown : (e : Exception) → Keeps S s (throws e)
  stuck : Keeps S s undefined
  unfinished : Keeps S s spent

module _ {S : Type 0} (lib : Library) (fs : FileSystem S) (data_path : Bytes) (response : Response)
    (s : S) where
  if-Keeps :
      (b : Bool) (x y : Answer S) → Keeps S s x → Keeps S s y → Keeps S s (if b then x else y)
  if-Keeps true x y h k = h
  if-Keeps false x y h k = k

  bind-Keeps :
      {A : Type 0} (m : Run A) (f : A → Answer S)
      → ((a : A) → Keeps S s (f a))
      → Keeps S s (m >>= f)
  bind-Keeps (ok a) f h = h a
  bind-Keeps (throws e) f h = thrown e
  bind-Keeps undefined f h = stuck
  bind-Keeps spent f h = unfinished

  report_contents-Keeps :
      (o : Option Bytes) → Keeps S s (report_contents lib fs data_path response o s)
  report_contents-Keeps none = answered _ _
  report_contents-Keeps (some b) = answered _ _

  found-Keeps :
      (path : Bytes) (uri : List Bytes)
      → Keeps S s (handle_found lib fs data_path response path uri s)
  unfolding handle_found
  found-Keeps path [] = answered _ _
  found-Keeps path (e ∷ []) = search (bind-Keeps, answered)
  found-Keeps path (e ∷ n ∷ []) = search (bind-Keeps, report_contents-Keeps)
  found-Keeps path (e ∷ n ∷ x ∷ uri) = answered _ _

  get-Keeps : (uri : List Bytes) → Keeps S s (handle_get lib fs data_path response uri s)
  unfolding handle_get
  get-Keeps uri = search (if-Keeps, bind-Keeps, answered, found-Keeps) depth 9

  ne-equal : (a b : Bytes) → a ≢ b → equal a b ≡ false
  ne-equal a b n = ground (arith, equal_iff a b, n)

  -- A request of any method but POST, PUT and DELETE leaves the state of the file system as it was,
  -- on every branch.
  pub handle_api-Keeps :
      (r : Request)
      → r.method ≢ codes "POST"
      → r.method ≢ codes "PUT"
      → r.method ≢ codes "DELETE"
      → Keeps S s (handle_api lib fs data_path response r s)
  unfolding handle_api
  handle_api-Keeps r post put delete =
      rw
        (
          ne-equal r.method (codes "POST") post,
          ne-equal r.method (codes "PUT") put,
          ne-equal r.method (codes "DELETE") delete,
        )
        (search (if-Keeps, bind-Keeps, get-Keeps, answered) depth 9)
